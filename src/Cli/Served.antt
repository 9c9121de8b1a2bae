-- ===== src/Cli/Served.antt =====
-- src/cli/client.rs and src/daemon/control.rs together: a client that is connected to the server.
use nic_autoswitch.Common.{
  ◌≡◌, refl, sym, ◌∙◌, ◌≢◌, inl, inr, true, Option, none, some, List, [], ◌∷◌, Bool-cases, Text,
  Text-eq, ℕ-eq,
}
use nic_autoswitch.Error.{Error, Result, ok, err}
use nic_autoswitch.Daemon.Json.{Json}
use nic_autoswitch.Daemon.Control.{
  ControlCommand, status, list_routes, reload, shutdown, ControlResponse, ControlState, Serde,
  or_null, line, reload_response, handle_command, answer_line, handle_connection,
}
use nic_autoswitch.Cli.Client.{connected, Socket, outcome, send_command}

-- At the end of the stream the line is empty.
abbrev pub first_line : List Text → Text
first_line [] = []
first_line (t ∷ _) = t

module _ (serde : Serde) {S : Type 0} (cs : ControlState S) where
  -- The socket of a client whose only line the server handles in the state `s`.
  abbrev pub served : S → Socket
  served s = record {
    connect = connected;
    timeouts_set = true;
    written = λ t. true;
    reply = λ t.
        let (result, sent, s') = handle_connection serde cs (line t true ∷ []) s in
        some (first_line sent);
  }

  -- Both texts, of the command and of its response, are read as what was written.
  pub record Carries (c : ControlCommand) (r : ControlResponse) : Type 0 where
    pub command_text : Text
    pub response_text : Text
    pub command_written : serde.command_to_string c ≡ some command_text
    pub command_read : serde.command_from_str command_text ≡ some c
    pub response_written : serde.response_to_string r ≡ some response_text
    pub response_read : serde.response_from_str response_text ≡ some r

  answer-Carries :
      (c : ControlCommand) (s : S) (w : Carries c (handle_command serde cs c s).0)
      → answer_line serde cs w.command_text s ≡ handle_command serde cs c s
  unfolding answer_line
  answer-Carries c s w = rw (w.command_read, answer_line) refl

  connection-Carries :
      (c : ControlCommand) (s : S) (w : Carries c (handle_command serde cs c s).0)
      → handle_connection serde cs (line w.command_text true ∷ []) s
        ≡ (ok tt, w.response_text ∷ [], (handle_command serde cs c s).1)
  unfolding handle_connection
  connection-Carries c s w = rw (answer-Carries c s w, w.response_written) refl

  -- Over the socket, a client learns of a command exactly what the handler answers, if the texts of the
  -- command and of the answer are read as what was written.
  pub send_command_refines {ℓ} :
      {A : Type ℓ} (from : Json → Option A) (c : ControlCommand) (s : S)
      → Carries c (handle_command serde cs c s).0
      → send_command serde from (served s) c ≡ outcome serde from (handle_command serde cs c s).0
  unfolding send_command
  send_command_refines from c s w =
      rw (w.command_written) (rw (connection-Carries c s w) (rw (w.response_read) refl))

  -- An answer with no payload gives no text, if null is no text.
  no_text :
      (r : ControlResponse) (t : Text)
      → serde.string_from_value Json.null ≡ none
      → r.payload ≡ none
      → outcome serde serde.string_from_value r ≢ ok t
  unfolding outcome
  no_text r t null_no_text empty h =
      let no_value : serde.string_from_value (or_null r.payload) ≡ none = rw empty null_no_text in
      elim (Bool-cases r.success) [
        | inl good ↦ unfailing (rw (good, no_value) at h)
        | inr bad ↦ unfailing (rw bad at h)
      ]
    where
      unfailing : {e : Error} → ◌≡◌ {A = Result Text} (err e) (ok t) → ⊥
      unfailing h' = cc

  -- The commands whose answer has a message and no payload.
  pub data IsOrder : ControlCommand → Type 0 where
    reloads : IsOrder reload
    shuts_down : IsOrder shutdown

  order_payload :
      (c : ControlCommand) (s : S) → IsOrder c → (handle_command serde cs c s).0.payload ≡ none
  unfolding handle_command
  order_payload reload s o = payload_of (cs.reload_config s).0
    where
      payload_of : (r : Result (Unit {0})) → (reload_response serde cs r).payload ≡ none
      payload_of (ok u) = refl
      payload_of (err e) = refl
  order_payload shutdown s o = refl
  order_payload status s o = elim o [ ]
  order_payload list_routes s o = elim o [ ]

  -- A client that asks for a reload or a shutdown never gets a text, even where the server did what it
  -- asked for, if null is no text and the texts of the command and of the answer are read as what was
  -- written.
  pub order_fails :
      (c : ControlCommand) (s : S) (t : Text)
      → IsOrder c
      → serde.string_from_value Json.null ≡ none
      → Carries c (handle_command serde cs c s).0
      → send_command serde serde.string_from_value (served s) c ≢ ok t
  order_fails c s t o null_no_text w h =
      no_text (handle_command serde cs c s).0 t null_no_text (order_payload c s o)
        (sym (send_command_refines serde.string_from_value c s w) ∙ h)
