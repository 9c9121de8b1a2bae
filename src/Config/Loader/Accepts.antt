-- ===== src/Config/Loader/Accepts.antt =====
-- src/config/loader.rs: a loader never holds a configuration that the validation rejects.
use mathlib.Core.Path.{subst}
use nic_autoswitch.Common.{
  ◌≡◌, refl, ◌∙◌, ◌≢◌, ◌⊎◌, inl, inr, true, not, ◌&&◌, List, [], ◌∷◌, arith, Bool-cases, Text, ◌==◌,
  Text-eq, ℕ-eq,
}
use nic_autoswitch.Error.{Error, Result, ok, err, ◌>>=◌, ◌>>◌}
use nic_autoswitch.Config.Schema.{Config}
use nic_autoswitch.Config.Validate.{validate, validate_global}
use nic_autoswitch.Config.Loader.{
  FileRead, absent, unreadable, malformed, parsed, Channel, send, ConfigLoader, load_from_path,
  new_loader, subscribe, override_dry_run, accept, reload, LoaderCall, reloads, overrides,
  subscribes, after_call, after_calls,
}

-- The configuration and what receivers see are accepted.
abbrev pub IsAccepted : ConfigLoader → Type 0
IsAccepted l = (validate l.current ≡ ok tt) × (validate l.sender.value ≡ ok tt)

send-accepted :
    (c : Config) (ch : Channel)
    → validate c ≡ ok tt
    → validate ch.value ≡ ok tt
    → validate (send c ch).value ≡ ok tt
send-accepted c ch hc hv = elim (Bool-cases (ch.receivers == 0)) [
  | inl nobody ↦ rw nobody hv
  | inr heard ↦ rw heard hc
]

ok_config : {c d : Config} → ◌≡◌ {A = Result Config} (ok c) (ok d) → c ≡ d
ok_config h = cc

checked_ok : (v : Result (Unit {0})) (c d : Config) → (v >> ok c) ≡ ok d → (v ≡ ok tt) × (c ≡ d)
checked_ok (ok tt) c d h = (refl, ok_config h)
checked_ok (err e) c d h = cc

pub load_accepted :
    (path : Text) (read : FileRead) (c : Config)
    → load_from_path path read ≡ ok c
    → validate c ≡ ok tt
unfolding load_from_path
load_accepted path (parsed d) c h =
    let (fine, equal) = checked_ok (validate d) d c h in subst (λ x. validate x ≡ ok tt) equal fine
load_accepted path absent c h = cc
load_accepted path unreadable c h = cc
load_accepted path malformed c h = cc

again_accepted :
    (m : Result Config) (d : Config) → (m >>= λ c. validate c >> ok c) ≡ ok d → validate d ≡ ok tt
again_accepted (ok c) d h =
    let (fine, equal) = checked_ok (validate c) c d h in subst (λ x. validate x ≡ ok tt) equal fine
again_accepted (err e) d h = cc

-- The validation does not read the flag.
dry_run_accepted :
    (c : Config) → validate (record c { global = record c.global { dry_run = true } }) ≡ validate c
unfolding validate validate_global
dry_run_accepted c = refl

accept-IsAccepted :
    (o : Result Config) (l : ConfigLoader)
    → ((c : Config) → o ≡ ok c → validate c ≡ ok tt)
    → IsAccepted l
    → IsAccepted (accept o l).1
accept-IsAccepted (err e) l good h = h
accept-IsAccepted (ok c) l good h = (good c refl, send-accepted c l.sender (good c refl) h.1)

after_call-IsAccepted :
    (c : LoaderCall) (l : ConfigLoader) → IsAccepted l → IsAccepted (after_call c l)
unfolding after_call reload override_dry_run subscribe
after_call-IsAccepted (reloads read) l h =
    accept-IsAccepted _ l (again_accepted (load_from_path l.path read)) h
after_call-IsAccepted (overrides dry_run) l h =
    elim (Bool-cases (dry_run && not l.current.global.dry_run)) [
      | inr skip ↦ rw skip h
      | inl apply ↦
          let c = record l.current { global = record l.current.global { dry_run = true } } in
          let fine : validate c ≡ ok tt = dry_run_accepted l.current ∙ h.0 in
          rw apply (fine, send-accepted c l.sender fine h.1)
    ]
after_call-IsAccepted subscribes l h = h

after_calls-IsAccepted :
    (cs : List LoaderCall) (l : ConfigLoader) → IsAccepted l → IsAccepted (after_calls cs l)
unfolding after_calls
after_calls-IsAccepted [] l h = h
after_calls-IsAccepted (c ∷ cs) l h =
    after_calls-IsAccepted cs (after_call c l) (after_call-IsAccepted c l h)

started-IsAccepted :
    (path : Text) (m : Result Config) (l : ConfigLoader)
    → ((c : Config) → m ≡ ok c → validate c ≡ ok tt)
    → (m >>= λ c.
        ok (record { path = path; current = c; sender = record { value = c; receivers = 0 } }))
      ≡ ok l
    → IsAccepted l
started-IsAccepted path (ok c) l good h =
    let fine = good c refl in
    let equal : record { path = path; current = c; sender = record { value = c; receivers = 0 } }
        ≡ l =
      cc in
    subst IsAccepted equal (fine, fine)
started-IsAccepted path (err e) l good h = cc

-- A new loader, after any calls, whatever the file holds by then, has an accepted configuration, and
-- so does what its receivers see.
pub new_loader-IsAccepted :
    (path : Text) (read : FileRead) (cs : List LoaderCall) (l : ConfigLoader)
    → new_loader path read ≡ ok l
    → IsAccepted (after_calls cs l)
unfolding new_loader
new_loader-IsAccepted path read cs l h =
    after_calls-IsAccepted cs l
      (started-IsAccepted path (load_from_path path read) l (load_accepted path read) h)

-- A reload that fails returns its error and leaves the loader as it was; one that succeeds makes
-- what it returns the current configuration, and receivers see it if there are any.
pub reload_lem :
    (read : FileRead) (l : ConfigLoader)
    → ((e : Error) × (reload read l ≡ (err e, l)))
      ⊎ ((c : Config) × ((reload read l).0 ≡ ok c)
          × ((reload read l).1.current ≡ c)
          × (l.sender.receivers ≢ 0 → (reload read l).1.sender.value ≡ c))
unfolding reload
reload_lem read l = accept_cases (load_from_path l.path read >>= λ c. validate c >> ok c)
  where
    accept_cases :
        (o : Result Config)
        → ((e : Error) × (accept o l ≡ (err e, l)))
          ⊎ ((c : Config) × ((accept o l).0 ≡ ok c)
              × ((accept o l).1.current ≡ c)
              × (l.sender.receivers ≢ 0 → (accept o l).1.sender.value ≡ c))
    accept_cases (err e) = inl (e, refl)
    accept_cases (ok c) = inr (c, refl, refl, λ heard. ground arith)

-- If nobody receives, then after a reload the next receiver sees what the channel held before.
pub subscribe-reload :
    (read : FileRead) (l : ConfigLoader)
    → l.sender.receivers ≡ 0
    → (subscribe (reload read l).1).0 ≡ l.sender.value
unfolding reload subscribe
subscribe-reload read l nobody =
    accept_unheard (load_from_path l.path read >>= λ c. validate c >> ok c)
  where
    accept_unheard : (o : Result Config) → (accept o l).1.sender.value ≡ l.sender.value
    accept_unheard (err e) = refl
    accept_unheard (ok c) = ground arith
