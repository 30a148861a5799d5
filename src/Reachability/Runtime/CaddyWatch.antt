-- ===== src/Reachability/Runtime/CaddyWatch.antt =====
-- src/reachability/runtime.ts: `watchCaddyOnce`. The watches run one after the other (`watchCaddy`), so one is a
-- function from what it finds to the state after it.
use bitsocial_cli.Common.{
  ◌+◌, String, Bool, true, false, not, ◌&&◌, ◌||◌, ◌≡◌, refl, Option, none, some, List, [], ◌∷◌,
  ◌∙◌, length, ltb, str_eq, eq_refl, eq_iff, is_some, if◌then◌else◌, arith,
}

-- The fields that a watch reads and writes.
pub record CaddyState : Type 0 where
  pub stopping : Bool
  pub expecting_exit : Bool
  pub adopted : Bool
  pub running : Bool
  pub loaded : Option String

pub record WatchConfig : Type 0 where
  pub enabled : Bool
  pub public_ips : List String
  pub domain : Option String

-- What a watch finds: the config and the Caddyfile, `none` if it cannot be read; what `isUp` answers when an
-- adopted Caddy is checked and before a start; whether a start, a reload succeed.
pub record Found : Type 0 where
  pub config : Option WatchConfig
  pub caddyfile : Option String
  pub adopted_is_up : Bool
  pub is_up : Bool
  pub starts : Bool
  pub reloads : Bool

pub data CaddyCall : Type 0 where
  stopped : CaddyCall
  started : CaddyCall
  reloaded : String → CaddyCall

-- The state and the calls; `thrown` if the watch ends in an exception.
pub record Watched : Type 0 where
  pub state : CaddyState
  pub calls : List CaddyCall
  pub thrown : Bool

unfoldable pub watched : CaddyState → List CaddyCall → Bool → Watched
watched state calls thrown = record { state = state; calls = calls; thrown = thrown }

unfoldable pub has_domain : Option String → Bool
has_domain none = false
has_domain (some domain) = not (str_eq domain "")

unfoldable pub is_wanted : Option WatchConfig → Bool
is_wanted none = false
is_wanted (some config) =
    config.enabled && ltb 0 (length config.public_ips + (if has_domain config.domain then 1 else 0))

-- The Caddyfile if Caddy is to run: it is wanted, and the file has a site, a line that begins with "https://".
unfoldable pub sites_of : (String → Bool) → Found → Option String
sites_of has_site found =
    if is_wanted found.config
    then elim found.caddyfile [
      | none ↦ none
      | some caddyfile ↦ if has_site caddyfile then some caddyfile else none
    ]
    else none

-- Without sites Caddy is stopped. An adopted one is no child, so no exit will be seen.
unfoldable pub without_sites : CaddyState → Watched
without_sites s =
    if s.running
    then watched
        (record s {
          expecting_exit = not s.adopted;
          running = false;
          adopted = false;
          loaded = none;
        })
        (stopped ∷ []) false
    else watched s [] false

unfoldable pub notice_adopted : Bool → CaddyState → CaddyState
notice_adopted is_up s =
    if s.adopted && not is_up then record s { adopted = false; running = false } else s

unfoldable pub is_loaded : String → Option String → Bool
is_loaded caddyfile none = false
is_loaded caddyfile (some loaded) = str_eq caddyfile loaded

unfoldable pub reload_if_new : Bool → String → CaddyState → Watched
reload_if_new reloads caddyfile s =
    if is_loaded caddyfile s.loaded
    then watched s [] false
    else if reloads
    then watched (record s { loaded = some caddyfile }) (reloaded caddyfile ∷ []) false
    else watched s (reloaded caddyfile ∷ []) true

unfoldable pub with_sites : Found → String → CaddyState → Watched
with_sites found caddyfile s =
    if s.running
    then reload_if_new found.reloads caddyfile s
    else if found.is_up
    then reload_if_new found.reloads caddyfile
        (record s { running = true; adopted = true; loaded = none })
    else if found.starts
    then watched (record s { running = true; loaded = some caddyfile }) (started ∷ []) false
    else watched s (started ∷ []) true

unfoldable pub watch_sites : Found → Option String → CaddyState → Watched
watch_sites found none s = without_sites s
watch_sites found (some caddyfile) s =
    with_sites found caddyfile (notice_adopted found.adopted_is_up s)

unfoldable pub watch_caddy_once : (String → Bool) → Found → CaddyState → Watched
watch_caddy_once has_site found s =
    if s.stopping then watched s [] false else watch_sites found (sites_of has_site found) s

-- The callback of `start`: whether it warns, and the state after it.
unfoldable pub on_caddy_exit : CaddyState → Bool × CaddyState
on_caddy_exit s = (
  not s.stopping && not s.expecting_exit,
  record s { expecting_exit = false; running = false; loaded = none },
)

-- A running Caddy serves the Caddyfile, if there are sites; otherwise none runs.
unfoldable pub is_settled : Option String → CaddyState → Bool
is_settled none s = not s.running
is_settled (some caddyfile) s = s.running && is_loaded caddyfile s.loaded

-- The state that a watch leaves is one in which the next watch does nothing.
abbrev IsDone : (String → Bool) → Found → Option String → CaddyState → Type 0
IsDone has_site again sites s =
    (s.stopping ≡ false)
    × (is_settled sites s ≡ true)
    × (sites_of has_site again ≡ sites)
    × (again.adopted_is_up ≡ true)

still :
    (has_site : String → Bool) (again : Found) (sites : Option String) (s : CaddyState)
    → IsDone has_site again sites s
    → watch_caddy_once has_site again s ≡ watched s [] false
unfolding watch_caddy_once watch_sites without_sites with_sites notice_adopted reload_if_new
    is_settled watched
still has_site again none s h = ground arith
still has_site again (some caddyfile) s h = ground arith

with_sites-is_settled :
    (found : Found) (caddyfile : String) (s : CaddyState)
    → (with_sites found caddyfile s).thrown ≡ false
    → is_settled (some caddyfile) (with_sites found caddyfile s).state ≡ true
unfolding with_sites reload_if_new is_settled is_loaded watched
with_sites-is_settled found caddyfile s ok = ground (arith, eq_refl caddyfile)

without_sites-is_settled : (s : CaddyState) → is_settled none (without_sites s).state ≡ true
unfolding without_sites is_settled watched
without_sites-is_settled s = ground arith

watch_sites-is_settled :
    (found : Found) (sites : Option String) (s : CaddyState)
    → (watch_sites found sites s).thrown ≡ false
    → is_settled sites (watch_sites found sites s).state ≡ true
unfolding watch_sites
watch_sites-is_settled found none s ok = without_sites-is_settled s
watch_sites-is_settled found (some caddyfile) s ok =
    with_sites-is_settled found caddyfile (notice_adopted found.adopted_is_up s) ok

watch_caddy_once-stopping :
    (has_site : String → Bool) (found : Found) (s : CaddyState)
    → (watch_caddy_once has_site found s).state.stopping ≡ s.stopping
unfolding watch_caddy_once watch_sites without_sites with_sites notice_adopted reload_if_new watched
watch_caddy_once-stopping has_site found s = ground arith

-- What Caddy itself serves after a call: `none` is a Caddy that does not run. A stop works.
abbrev pub perform : Found → CaddyCall → Option String → Option String
perform found stopped served = none
perform found started served = if found.starts then found.caddyfile else served
perform found (reloaded caddyfile) served = if found.reloads then some caddyfile else served

abbrev pub perform_all : Found → List CaddyCall → Option String → Option String
perform_all found [] served = served
perform_all found (call ∷ calls) served = perform_all found calls (perform found call served)

abbrev is_right : Option String → Option String → Bool
is_right none served = true
is_right (some loaded) none = true
is_right (some loaded) (some caddyfile) = str_eq loaded caddyfile

abbrev answers : Bool → Option String → Bool
answers is_up none = not is_up
answers is_up (some caddyfile) = is_up

-- What the daemon knows of Caddy is right: `isUp` says whether one runs, a child that counts as running runs, and
-- what counts as loaded is what a running one serves.
abbrev pub agrees : Found → CaddyState → Option String → Bool
agrees found s served =
    answers found.is_up served
    && answers found.adopted_is_up served
    && (is_some served || not s.running || s.adopted)
    && is_right s.loaded served

-- What Caddy is to serve: the Caddyfile if it has sites; without, one that the daemon runs is stopped.
abbrev pub wanted_of : Option String → CaddyState → Option String → Option String
wanted_of none s served = if s.running then none else served
wanted_of (some caddyfile) s served = some caddyfile

sites_of-caddyfile :
    (has_site : String → Bool) (found : Found) (caddyfile : String)
    → sites_of has_site found ≡ some caddyfile
    → found.caddyfile ≡ some caddyfile
unfolding sites_of
sites_of-caddyfile has_site found caddyfile h = ground arith

with_sites-serves :
    (found : Found) (caddyfile : String) (s : CaddyState) (served loaded : Option String)
    → s.loaded ≡ loaded
    → found.caddyfile ≡ some caddyfile
    → agrees found s served ≡ true
    → (with_sites found caddyfile (notice_adopted found.adopted_is_up s)).thrown ≡ false
    → perform_all found
        (with_sites found caddyfile (notice_adopted found.adopted_is_up s)).calls
        served
      ≡ some caddyfile
unfolding with_sites reload_if_new is_loaded watched notice_adopted
with_sites-serves found caddyfile s none loaded e f h ok = ground arith
with_sites-serves found caddyfile s (some served) none e f h ok = ground arith
with_sites-serves found caddyfile s (some served) (some loaded) e f h ok =
    ground (arith, eq_iff caddyfile loaded, eq_iff loaded served)

watch_sites-serves :
    (has_site : String → Bool) (found : Found) (sites : Option String) (s : CaddyState)
    (served : Option String)
    → sites_of has_site found ≡ sites
    → agrees found s served ≡ true
    → (watch_sites found sites s).thrown ≡ false
    → perform_all found (watch_sites found sites s).calls served ≡ wanted_of sites s served
unfolding watch_sites without_sites watched
watch_sites-serves has_site found none s served e h ok = ground arith
watch_sites-serves has_site found (some caddyfile) s served e h ok =
    with_sites-serves found caddyfile s served s.loaded refl
      (sites_of-caddyfile has_site found caddyfile e) h ok

-- If what the daemon knows of Caddy is right, a watch that does not fail has Caddy serve the Caddyfile of the moment
-- where the config wants it and the file has sites, and stops a Caddy that the daemon runs otherwise; the daemon knows
-- it then. A second watch that finds the same calls nothing and changes nothing, if Caddy stays up.
pub watch_caddy_once-settles :
    (has_site : String → Bool) (found again : Found) (s : CaddyState) (served : Option String)
    → s.stopping ≡ false
    → agrees found s served ≡ true
    → (watch_caddy_once has_site found s).thrown ≡ false
    → sites_of has_site again ≡ sites_of has_site found
    → again.adopted_is_up ≡ true
    → (perform_all found (watch_caddy_once has_site found s).calls served
        ≡ wanted_of (sites_of has_site found) s served)
      × (is_settled (sites_of has_site found) (watch_caddy_once has_site found s).state ≡ true)
      × (watch_caddy_once has_site again (watch_caddy_once has_site found s).state
          ≡ watched (watch_caddy_once has_site found s).state [] false)
unfolding watch_caddy_once
watch_caddy_once-settles has_site found again s served running right ok same up =
    let t = (watch_caddy_once has_site found s).state in
    let sites = sites_of has_site found in
    let settled : is_settled sites t ≡ true =
      ground (arith, running, ok, watch_sites-is_settled found sites s) in
    (
      ground (arith, watch_sites-serves has_site found sites s served refl right),
      settled,
      still has_site again sites t
          (watch_caddy_once-stopping has_site found s ∙ running, settled, same, up),
    )
