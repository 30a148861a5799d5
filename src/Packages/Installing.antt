-- ===== src/Packages/Installing.antt =====
-- src/common-utils/package-registry.ts: `installPackage` and `removePackage` on the directory of the installed packages, and
-- what they share. npm, the archive and the file system are what a World says of each step.
use bitsocial_cli.Common.{
  String, ◌<>◌, Bool, true, false, not, ◌&&◌, ◌||◌, ◌≡◌, ◌⊎◌, Option, none, some, is_some, str_eq,
  starts_with, contains, if◌then◌else◌, arith,
}
use bitsocial_cli.Packages.Names.{is_valid_package_name}

-- What a package.json says.
pub record PackageJson : Type 0 where
  pub name : String
  pub version : Option String

-- The installed packages, by name.
abbrev pub Installed : Type 0
Installed = String → Option PackageJson

-- `is_ready` is whether npm is there and the temporary directory is made; `found` is the package.json of the archive, if it has one with a name, at its root or one level deep. Each other
-- field is whether a step succeeds, in their order.
pub record PackageWorld : Type 0 where
  pub is_ready : Bool
  pub packs : Bool
  pub found : Option PackageJson
  pub npm_installs : Bool
  pub verifies : Bool
  pub makes_dir : Bool
  pub sets_aside : Bool
  pub makes_scope : Bool
  pub lands : Bool
  pub restores : Bool
  pub removes_tmp : Bool
  pub removes : Bool

pub record InstallPackageResult : Type 0 where
  pub name : String
  pub version : Option String
  pub replaced : Bool

-- The packages after it, and the result: `none` is an exception.
pub record Installing : Type 0 where
  pub installed : Installed
  pub result : Option InstallPackageResult

unfoldable pub put_package : String → Option PackageJson → Installed → Installed
put_package name pkg installed n = if str_eq n name then pkg else installed n

-- The rename into place; a failure puts back what was set aside.
unfoldable pub land : PackageWorld → PackageJson → Installed → Installing
land world pkg installed =
    let before = installed pkg.name in
    let aside = put_package pkg.name none installed in
    let restored = if is_some before && not world.restores then aside else installed in
    if world.lands
    then record {
      installed = put_package pkg.name (some pkg) installed;
      result = some (record { name = pkg.name; version = pkg.version; replaced = is_some before });
    }
    else record { installed = restored; result = none }

-- Step 8, the swap. The directory of a scope is made outside the `try` that restores.
unfoldable pub swap_in : PackageWorld → PackageJson → Installed → Installing
swap_in world pkg installed =
    if is_some (installed pkg.name) && not world.sets_aside
    then record { installed = installed; result = none }
    else if starts_with pkg.name "@" && not world.makes_scope
    then record { installed = put_package pkg.name none installed; result = none }
    else land world pkg installed

unfoldable pub verify_and_swap : PackageWorld → PackageJson → Installed → Installing
verify_and_swap world pkg installed =
    if is_valid_package_name pkg.name && world.npm_installs && world.verifies && world.makes_dir
    then swap_in world pkg installed
    else record { installed = installed; result = none }

-- The `finally`, which can throw in its turn.
unfoldable pub clean_up : PackageWorld → Installing → Installing
clean_up world installing =
    if world.removes_tmp then installing else record installing { result = none }

unfoldable pub install_package : PackageWorld → Installed → Installing
install_package world installed =
    let failed : Installing = record { installed = installed; result = none } in
    if not world.is_ready
    then failed
    else clean_up world (
        if not world.packs
        then failed
        else elim world.found [ none ↦ failed | some pkg ↦ verify_and_swap world pkg installed ])

pub record Removing : Type 0 where
  pub installed : Installed
  pub result : Option (Option String)

-- `readable` is whether the package.json can be read.
unfoldable pub remove_package : PackageWorld → Bool → String → Installed → Removing
remove_package world readable name installed =
    let failed : Removing = record { installed = installed; result = none } in
    if is_valid_package_name name
    then elim (installed name) [
      | none ↦ failed
      | some pkg ↦
          if world.removes
          then record {
            installed = put_package name none installed;
            result = some (if readable then pkg.version else none);
          }
          else failed
    ]
    else failed

unfoldable pub format_package_name_version : PackageJson → String
format_package_name_version pkg = elim pkg.version [
  | none ↦ pkg.name
  | some version ↦
      if not (str_eq version "") && not (str_eq version "unknown")
      then pkg.name <> "@" <> version
      else pkg.name
]

-- The parts of a parsed URL that `reloadUrlFromPkcRpcUrl` reads; `bare` is the host name without brackets.
pub record RpcUrl : Type 0 where
  pub protocol : String
  pub bare : String
  pub port : String
  pub auth_path : String

unfoldable pub dialed_host : String → String
dialed_host bare = if str_eq bare "0.0.0.0" || str_eq bare "::" then "127.0.0.1" else bare

unfoldable pub reload_url : String → Option RpcUrl → Option String
reload_url subdir none = none
reload_url subdir (some url) =
    let host = dialed_host url.bare in
    if str_eq url.port ""
    then none
    else some (
        (if str_eq url.protocol "wss:" then "https" else "http")
        <> "://"
        <> (if contains host ":" then "[" <> host <> "]" else host)
        <> ":"
        <> url.port
        <> url.auth_path
        <> "/api/"
        <> subdir
        <> "/reload")

-- `answer` is whether the daemon's answer is fine, `none` if there is none.
unfoldable pub reload_packages_in_daemon : String → Option RpcUrl → (String → Option Bool) → Bool
reload_packages_in_daemon subdir url post = elim (reload_url subdir url) [
  | none ↦ false
  | some reload ↦ elim (post reload) [ none ↦ false | some ok ↦ ok ]
]

-- If the archive has a package.json, what was set aside can be put back, and the directory of a scope and the removal of
-- the temporary directory do not fail, an install that fails leaves every installed package as it was, and one that
-- succeeds puts the archive's package under its name, which is a valid one, changes no other, and says whether it
-- replaced one.
pub install_package-installed :
    (world : PackageWorld) (installed : Installed) (pkg : PackageJson) (n : String)
    → world.found ≡ some pkg
    → world.restores ≡ true
    → world.makes_scope ≡ true
    → world.removes_tmp ≡ true
    → let after = install_package world installed in
      ((after.result ≡ none) × (after.installed n ≡ installed n))
      ⊎ ((after.result
            ≡ some (record {
              name = pkg.name;
              version = pkg.version;
              replaced = is_some (installed pkg.name);
            }))
          × (is_valid_package_name pkg.name ≡ true)
          × (after.installed n ≡ put_package pkg.name (some pkg) installed n))
unfolding install_package clean_up verify_and_swap swap_in land
install_package-installed world installed pkg n e r s t = ground arith
