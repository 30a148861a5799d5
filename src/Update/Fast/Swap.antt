-- ===== src/Update/Fast/Swap.antt =====
-- src/update/fast-update.ts: what a fast update leaves at the install root.
use bitsocial_cli.Common.{ℕ, String, true, false, ◌≡◌, ◌⊎◌, Option, none, some, str_eq, arith}
use bitsocial_cli.Update.Fast.{
  Manifest, Installation, Directories, renamed, World, updating, modules_back, root_back, roll_back,
  downloaded, drop_backup, after_swap, swap, reuse_webuis, reuse_modules, fast_install_global,
}

-- The directory holds the package of that manifest.
abbrev pub manifest_of : Option Installation → Option Manifest
manifest_of none = none
manifest_of (some installation) = some installation.manifest

abbrev pub modules_of : Option Installation → Option ℕ
modules_of none = none
modules_of (some installation) = installation.node_modules

module _ (repo_name : String → Option String) (to_lower : String → String) where
  -- Whatever fails, if the old root can be put back, the install root holds the new package, or the old one where the
  -- update does not report success.
  pub fast_install_global-root :
      (world : World) (old : Installation) (d : Directories)
      → world.restores_root ≡ true
      → let result = fast_install_global repo_name to_lower world old d in
        (manifest_of result.directories.install_root ≡ some world.unpacked.manifest)
        ⊎ ((manifest_of result.directories.install_root ≡ some old.manifest)
            × (¬ (result.updated ≡ some true)))
  unfolding fast_install_global reuse_modules reuse_webuis swap after_swap drop_backup downloaded
      roll_back root_back modules_back updating
  fast_install_global-root world old d h = ground arith

  -- If the old installation is set aside and the new one cannot be put in its place, the old one comes back without
  -- its node_modules, which are deleted with the staging directory, whether or not they could be moved.
  pub fast_install_global-modules_lost :
      (world : World) (old : Installation) (d : Directories)
      → world.cleans_up ≡ true
      → world.unpacks ≡ true
      → world.reads_manifests ≡ true
      → str_eq old.manifest.dependencies world.unpacked.manifest.dependencies ≡ true
      → world.moves_modules ≡ renamed
      → world.deletes_webuis ≡ true
      → world.backs_up ≡ true
      → world.lands ≡ false
      → world.restores_root ≡ true
      → let result = fast_install_global repo_name to_lower world old d in
        (manifest_of result.directories.install_root ≡ some old.manifest)
        × (modules_of result.directories.install_root ≡ none)
        × (result.directories.staging_dir ≡ none)
        × (result.directories.backup_dir ≡ none)
  unfolding fast_install_global reuse_modules reuse_webuis swap roll_back root_back modules_back
      updating
  fast_install_global-modules_lost world old d c u r e m w b l h = ground arith
