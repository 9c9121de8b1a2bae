-- ===== src/Daemon/Control/Connection.antt =====
-- src/daemon/control.rs: what a connection does to the state, and who gets one.
use nic_autoswitch.Common.{
  ℕ, ◌≡◌, refl, ◌⊎◌, inl, inr, Bool, true, false, Option, none, some, List, [], ◌∷◌, arith,
  ℕ_discrete, if◌then◌else◌, Bool-cases, Option-cases, Text, Text-eq, ℕ-eq, All,
}
use nic_autoswitch.Error.{invalid_command, ok}
use nic_autoswitch.Daemon.Control.{
  ControlCommand, ControlResponse, error_response, ControlState, Serde, Incoming, line,
  handle_command, answer_line, handle_connection, check_peer_cred, Arrival, connection,
  accept_failed, notification, accept_loop,
}

-- An abstract server: a command in, an answer out, and a text that is no command is refused.
module _ (serde : Serde) {S : Type 0} (cs : ControlState S) where
  abbrev pub dialogue : List (Option ControlCommand) → S → List ControlResponse × S
  dialogue [] s = ([], s)
  dialogue (none ∷ l) s =
      let (rest, s') = dialogue l s in (error_response invalid_command ∷ rest, s')
  dialogue (some c ∷ l) s =
      let (r, s1) = handle_command serde cs c s in let (rest, s') = dialogue l s1 in (r ∷ rest, s')

  abbrev pub texts : (ControlResponse → Text) → List ControlResponse → List Text
  texts print [] = []
  texts print (r ∷ l) = print r ∷ texts print l

  abbrev pub written_lines : List Text → List Incoming
  written_lines [] = []
  written_lines (t ∷ l) = line t true ∷ written_lines l

  abbrev pub commands : List Text → List (Option ControlCommand)
  commands [] = []
  commands (t ∷ l) = serde.command_from_str t ∷ commands l

  -- If every response can be serialized, a connection that stays open behaves as the abstract server
  -- on the commands of its lines: one answer for each line, in their order, and the same state.
  pub handle_connection_refines :
      (print : ControlResponse → Text) (l : List Text) (s : S)
      → ((r : ControlResponse) → serde.response_to_string r ≡ some (print r))
      → handle_connection serde cs (written_lines l) s
        ≡ (ok tt, texts print (dialogue (commands l) s).0, (dialogue (commands l) s).1)
  unfolding handle_connection
  handle_connection_refines print [] s total = refl
  handle_connection_refines print (t ∷ l) s total = elim (Option-cases (serde.command_from_str t)) [
    | inl refused ↦
        let ih = handle_connection_refines print l s total in
        let answer : answer_line serde cs t s ≡ (error_response invalid_command, s) =
          unfold answer_line in rw (refused, answer_line) refl in
        rw (answer, refused, total (error_response invalid_command)) (rw ih refl)
    | inr (c, read) ↦
        let s1 = (handle_command serde cs c s).1 in
        let ih = handle_connection_refines print l s1 total in
        let answer : answer_line serde cs t s ≡ handle_command serde cs c s =
          unfold answer_line in rw (read, answer_line) refl in
        rw (answer, read, total (handle_command serde cs c s).0) (rw ih refl)
  ]

-- The connections whose peer is root or the user of the daemon.
abbrev pub Permitted : ℕ → List (Arrival × Bool) → List Incoming → Type 0
Permitted euid [] c = ⊥
Permitted euid ((connection (some uid) lines, flag) ∷ l) c =
    ((lines ≡ c) × ((uid ≡ euid) ⊎ (uid ≡ 0))) ⊎ Permitted euid l c
Permitted euid (_ ∷ l) c = Permitted euid l c

Permitted-later :
    (euid : ℕ) (a : Arrival × Bool) (l : List (Arrival × Bool)) (c : List Incoming)
    → Permitted euid l c
    → Permitted euid (a ∷ l) c
Permitted-later euid (connection (some uid) lines, flag) l c h = inr h
Permitted-later euid (connection none lines, flag) l c h = h
Permitted-later euid (accept_failed, flag) l c h = h
Permitted-later euid (notification, flag) l c h = h

All-later :
    (euid : ℕ) (a : Arrival × Bool) (l : List (Arrival × Bool)) (cs : List (List Incoming))
    → All (Permitted euid l) cs
    → All (Permitted euid (a ∷ l)) cs
All-later euid a l [] h = tt
All-later euid a l (c ∷ cs) (h, hs) = (Permitted-later euid a l c h, All-later euid a l cs hs)

peer_allowed : (euid uid : ℕ) → check_peer_cred euid (some uid) ≡ true → (uid ≡ euid) ⊎ (uid ≡ 0)
unfolding check_peer_cred ℕ_discrete
peer_allowed euid uid h = ground arith

All-after :
    (P : List Incoming → Type 0) (flag : Bool) (cs : List (List Incoming))
    → All P cs
    → All P (if flag then [] else cs)
All-after P true cs h = tt
All-after P false cs h = h

-- A connection is handled only if its peer is known and is root or the user of the daemon.
pub accept_loop-Permitted :
    (euid : ℕ) (l : List (Arrival × Bool)) → All (Permitted euid l) (accept_loop euid l)
unfolding accept_loop
accept_loop-Permitted euid [] = tt
accept_loop-Permitted euid ((connection none lines, flag) ∷ l) =
    unfold check_peer_cred in
    All-later euid (connection none lines, flag) l _ (accept_loop-Permitted euid l)
accept_loop-Permitted euid ((connection (some uid) lines, flag) ∷ l) =
    let later =
      All-later euid (connection (some uid) lines, flag) l _ (accept_loop-Permitted euid l) in
    elim (Bool-cases (check_peer_cred euid (some uid))) [
      | inr refused ↦ rw refused later
      | inl allowed ↦
          rw allowed (inl (refl, peer_allowed euid uid allowed), All-after _ flag _ later)
    ]
accept_loop-Permitted euid ((accept_failed, true) ∷ l) = tt
accept_loop-Permitted euid ((accept_failed, false) ∷ l) =
    All-later euid (accept_failed, false) l _ (accept_loop-Permitted euid l)
accept_loop-Permitted euid ((notification, flag) ∷ l) = tt
