-- ===== src/Update/Fast.antt =====
-- src/update/fast-update.ts: `fastInstallGlobal` on the three directories that it moves. What a step of it meets, from
-- npm to the file system, is a World; a directory is what of it is moved.
pub mod Swap
use bitsocial_cli.Common.{
  ℕ, String, Bool, true, false, not, ◌&&◌, ◌||◌, Option, none, some, List, [], ◌∷◌, ◌++◌, keep, any,
  contains, str_eq, is_some, if◌then◌else◌,
}

pub record WebuiEntry : Type 0 where
  pub url : String
  pub sha256_of_html_zip : String

-- What is read of a package.json: the dependencies as JSON text, and the web UIs.
pub record Manifest : Type 0 where
  pub dependencies : String
  pub webuis : List WebuiEntry

-- An installation: its package.json, its node_modules, named by a number, and the directories in dist/webuis.
pub record Installation : Type 0 where
  pub manifest : Manifest
  pub node_modules : Option ℕ
  pub webui_dirs : Option (List String)

pub record Directories : Type 0 where
  pub install_root : Option Installation
  pub staging_dir : Option Installation
  pub backup_dir : Option Installation

pub data Rename : Type 0 where
  renamed : Rename
  cross_device : Rename
  refused : Rename

-- `unpacked` is the content of the tarball. Each other field is whether a step succeeds, in their order.
pub record World : Type 0 where
  pub unpacked : Installation
  pub cleans_up : Bool
  pub unpacks : Bool
  pub reads_manifests : Bool
  pub moves_modules : Rename
  pub moves_webuis : Bool
  pub deletes_webuis : Bool
  pub backs_up : Bool
  pub lands : Bool
  pub makes_webuis : Bool
  pub downloads : WebuiEntry → Option String
  pub removes_backup : Bool
  pub restores_modules : Bool
  pub restores_root : Bool

-- `none` as the result is an exception, which only the first clean up throws.
pub record Updating : Type 0 where
  pub directories : Directories
  pub updated : Option Bool

unfoldable pub updating : Directories → Option Bool → Updating
updating directories updated = record { directories = directories; updated = updated }

-- `rename(staging/node_modules, installRoot/node_modules)`: it fails without the directory it moves to.
unfoldable pub modules_back : Option Installation → Option Installation → Directories → Directories
modules_back (some root) (some staging) d = record d {
  install_root = some (record root { node_modules = staging.node_modules });
  staging_dir = some (record staging { node_modules = none });
}
modules_back _ _ d = d

unfoldable pub root_back : World → Directories → Directories
root_back world d = elim d.install_root [
  | some root ↦ d
  | none ↦
      if world.restores_root && is_some d.backup_dir
      then record d { install_root = d.backup_dir; backup_dir = none }
      else d
]

-- The `catch`. The deletion of the staging directory at its end is taken to succeed.
unfoldable pub roll_back : World → Bool → Directories → Updating
roll_back world modules_moved d =
    let with_modules =
      if modules_moved && world.restores_modules
      then modules_back d.install_root d.staging_dir d
      else d in
    updating (record (root_back world with_modules) { staging_dir = none }) (some false)

-- `oldWebuisByUrl.get(url)`: the last entry of a url counts.
unfoldable pub hash_of : String → List WebuiEntry → Option String
hash_of url [] = none
hash_of url (entry ∷ entries) =
    let later = hash_of url entries in
    elim later [
      | some hash ↦ some hash
      | none ↦ if str_eq entry.url url then some entry.sha256_of_html_zip else none
    ]

unfoldable pub is_changed : List WebuiEntry → WebuiEntry → Bool
is_changed old entry = elim (hash_of entry.url old) [
  | none ↦ true
  | some hash ↦ not (str_eq hash entry.sha256_of_html_zip)
]

unfoldable pub changed_webuis : Manifest → Manifest → List WebuiEntry
changed_webuis old new = keep (is_changed old.webuis) new.webuis

-- `repo_name` is `extractRepoName`'s regular expression.
module _ (repo_name : String → Option String) (to_lower : String → String) where
  unfoldable pub is_of : List WebuiEntry → String → Bool
  is_of [] name = false
  is_of (entry ∷ entries) name =
      let rest = is_of entries name in
      elim (repo_name entry.url) [
        | none ↦ rest
        | some repo ↦ contains (to_lower name) (to_lower repo) || rest
      ]

  unfoldable pub without_changed : List WebuiEntry → Option (List String) → Option (List String)
  without_changed changed none = none
  without_changed changed (some names) = some (keep (λ name. not (is_of changed name)) names)

  -- The downloads: one that fails is only warned of.
  unfoldable pub download_all : World → List WebuiEntry → List String → List String
  download_all world [] names = names
  download_all world (entry ∷ entries) names =
      let more : List String = elim (world.downloads entry) [
        | none ↦ names
        | some name ↦ names ++ (name ∷ [])
      ] in
      download_all world entries more

  unfoldable pub names_of : Option (List String) → List String
  names_of none = []
  names_of (some names) = names

  unfoldable pub downloaded : World → List WebuiEntry → Installation → Installation
  downloaded world to_download new = record new {
    webui_dirs = some (download_all world to_download (names_of new.webui_dirs));
  }

  unfoldable pub is_none : List WebuiEntry → Bool
  is_none [] = true
  is_none (entry ∷ entries) = false

  unfoldable pub drop_backup : World → Directories → Updating
  drop_backup world d =
      if world.removes_backup
      then updating (record d { backup_dir = none }) (some true)
      else roll_back world false d

  -- What follows the swap; `moved` is whether the old web UIs came along.
  unfoldable pub after_swap : World → Bool → List WebuiEntry → Installation → Directories → Updating
  after_swap world moved changed new d =
      let to_download = if moved then changed else new.manifest.webuis in
      if is_none changed && moved
      then drop_backup world d
      else if world.makes_webuis
      then drop_backup world (record d { install_root = some (downloaded world to_download new) })
      else roll_back world false d

  -- The two renames of the swap: the old root, without what was moved out of it, and the staged one.
  unfoldable pub swap :
      World → Bool → List WebuiEntry → Installation → Installation → Directories → Updating
  swap world moved changed old new d =
      let before = record d { install_root = some old; staging_dir = some new } in
      if not world.backs_up
      then roll_back world true before
      else (let backed_up = record before { install_root = none; backup_dir = some old } in
          if not world.lands
          then roll_back world true backed_up
          else after_swap world moved changed new
              (record backed_up { install_root = some new; staging_dir = none }))

  unfoldable pub reuse_webuis : World → Installation → Installation → Directories → Updating
  reuse_webuis world old new d =
      let moved = world.moves_webuis && is_some old.webui_dirs in
      let changed = changed_webuis old.manifest new.manifest in
      let bare = record old { webui_dirs = if moved then none else old.webui_dirs } in
      let reused = if moved then without_changed changed old.webui_dirs else new.webui_dirs in
      let failed = moved && not (is_none changed) && not world.deletes_webuis in
      if failed
      then roll_back world true (record d {
        install_root = some bare;
        staging_dir = some (record new { webui_dirs = old.webui_dirs });
      })
      else swap world moved changed bare (record new { webui_dirs = reused }) d

  unfoldable pub reuse_modules : World → Installation → Installation → Directories → Updating
  reuse_modules world old new d = elim world.moves_modules [
    | renamed ↦
        reuse_webuis world (record old { node_modules = none })
          (record new { node_modules = old.node_modules }) d
    | cross_device ↦ updating (record d { staging_dir = none }) (some false)
    | refused ↦ roll_back world false d
  ]

  unfoldable pub fast_install_global : World → Installation → Directories → Updating
  fast_install_global world old d =
      let clean = record d { install_root = some old; staging_dir = none; backup_dir = none } in
      let staged = record clean { staging_dir = some world.unpacked } in
      if not world.cleans_up
      then updating (record d { install_root = some old }) none
      else if not world.unpacks || not world.reads_manifests
      then roll_back world false staged
      else if not (str_eq old.manifest.dependencies world.unpacked.manifest.dependencies)
      then updating clean (some false)
      else reuse_modules world old world.unpacked staged
