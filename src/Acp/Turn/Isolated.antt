-- ===== src/Acp/Turn/Isolated.antt =====
-- What is left of a turn once it has ended.
use agentrun.Prelude.{
  ℕ, ◌≡◌, refl, ap, subst, ◌∙◌, Str, bytes, str_eq, true, false, List, [], ◌∷◌, ◌++◌, arith,
  Option-cases, Bool-cases, inl, inr, All, All-append, sym,
}
use agentrun.Message.{Message, error, message}
use agentrun.Acp.Turn.{
  emit_error, Accumulator, observe, seal, Denials, add_denial, seal_denials, PermissionParams,
  Decoded, unreadable, readable, Verdict, decides, fails, Policy, Turn, new_turn, decide,
  handle_permission, PromptEnd, answered, finish_turn, TurnEvent, notified, requested, handle_event,
  handle_events, execute_send, request_of,
}
use agentrun.Acp.Turn.Emits.{messages_of, handle_events-IsRunning, IsRunning}

record IsSealed (ta : Accumulator) (td : Denials) (turn : Turn) : Type 0 where
  deltas : turn.accumulator ≡ ta
  denied : turn.denials ≡ td
  no_deltas : ta.is_sealed ≡ true
  no_denials : td.is_sealed ≡ true

add_denial-sealed :
    (tool reason : Str) (td : Denials) → td.is_sealed ≡ true → add_denial tool reason td ≡ td
unfolding add_denial
add_denial-sealed tool reason td h = simp h refl

emit-IsSealed :
    (content : Str) (now : ℕ) (ta : Accumulator) (td : Denials) (turn : Turn)
    → IsSealed ta td turn
    → IsSealed ta td (emit_error content now turn)
emit-IsSealed content now ta td turn h = record {
  deltas = h.deltas;
  denied = h.denied;
  no_deltas = h.no_deltas;
  no_denials = h.no_denials;
}

deny-IsSealed :
    (tool reason : Str) (ta : Accumulator) (td : Denials) (turn : Turn)
    → IsSealed ta td turn
    → IsSealed ta td (record turn { denials = add_denial tool reason turn.denials })
deny-IsSealed tool reason ta td turn h = record {
  deltas = h.deltas;
  denied = ap (add_denial tool reason) h.denied ∙ add_denial-sealed tool reason td h.no_denials;
  no_deltas = h.no_deltas;
  no_denials = h.no_denials;
}

decide-IsSealed :
    (v : Verdict) (params : PermissionParams) (now : ℕ) (ta : Accumulator) (td : Denials)
    (turn : Turn)
    → IsSealed ta td turn
    → IsSealed ta td (decide v params now turn).1
unfolding decide
decide-IsSealed (fails err) params now ta td turn h =
    emit-IsSealed (bytes "acp: permission handler error: " ++ err) now ta td turn h
decide-IsSealed (decides true) params now ta td turn h = h
decide-IsSealed (decides false) params now ta td turn h =
    deny-IsSealed params.title (bytes "denied by handler") ta td turn h

handle_permission-IsSealed :
    (policy : Policy) (params : Decoded) (now : ℕ) (ta : Accumulator) (td : Denials) (turn : Turn)
    → IsSealed ta td turn
    → IsSealed ta td (handle_permission policy params now turn).1
unfolding handle_permission
handle_permission-IsSealed policy (unreadable err) now ta td turn h =
    emit-IsSealed (bytes "acp: unmarshal permission request: " ++ err) now ta td turn h
handle_permission-IsSealed policy (readable params) now ta td turn h =
    elim (Bool-cases (str_eq policy.hitl (bytes "off"))) [
      | inl off ↦ rw off h
      | inr on ↦ elim (Option-cases policy.handler) [
        | inl missing ↦
            simp (on, missing)
              (deny-IsSealed params.title (bytes "no permission handler") ta td turn h)
        | inr (handler, found) ↦
            simp (on, found) (decide-IsSealed (handler (request_of params)) params now ta td turn h)
      ]
    ]

handle_event-IsSealed :
    (policy : Policy) (now : ℕ) (e : TurnEvent) (ta : Accumulator) (td : Denials) (turn : Turn)
    → IsSealed ta td turn
    → IsSealed ta td (handle_event policy now e turn)
unfolding handle_event observe
handle_event-IsSealed policy now (notified msg) ta td turn h = ground arith
handle_event-IsSealed policy now (requested params) ta td turn h =
    handle_permission-IsSealed policy params now ta td turn h

handle_events-IsSealed :
    (policy : Policy) (now : ℕ) (events : List TurnEvent) (ta : Accumulator) (td : Denials)
    (turn : Turn)
    → IsSealed ta td turn
    → IsSealed ta td (handle_events policy now events turn)
unfolding handle_events
handle_events-IsSealed policy now [] ta td turn h = h
handle_events-IsSealed policy now (e ∷ events) ta td turn h =
    handle_events-IsSealed policy now events ta td (handle_event policy now e turn)
      (handle_event-IsSealed policy now e ta td turn h)

seal-is_sealed : (now : ℕ) (ta : Accumulator) → (seal now ta).1.is_sealed ≡ true
unfolding seal
seal-is_sealed now ta = ground arith

-- The updates that a turn sends if its prompt is not answered.
abbrev pub IsSilent : PromptEnd Str → List Message → List Message → Type 0
IsSilent (answered r) sent msgs = Unit
IsSilent _ sent msgs = sent ≡ msgs

finish_turn-IsSealed :
    (end : PromptEnd Str) (now : ℕ) (turn : Turn)
    → let after = (finish_turn end now turn).1 in
      IsSealed after.accumulator after.denials after × IsSilent end after.updates turn.updates
unfolding finish_turn seal seal_denials
finish_turn-IsSealed (answered r) now turn = (
  record {
    deltas = refl;
    denied = refl;
    no_deltas = seal-is_sealed now turn.accumulator;
    no_denials = refl;
  },
  tt,
)
finish_turn-IsSealed _ now turn = (
  record {
    deltas = refl;
    denied = refl;
    no_deltas = seal-is_sealed now turn.accumulator;
    no_denials = refl;
  },
  refl,
)

-- The messages that a turn sends past the updates are errors.
abbrev pub IsErrors : List Message → Type 0
IsErrors = All (λ (m : Message). m.type ≡ error)

emit-IsErrors :
    (content : Str) (now : ℕ) (turn : Turn)
    → IsErrors turn.emitted
    → IsErrors (emit_error content now turn).emitted
emit-IsErrors content now turn h =
    All-append (λ (m : Message). m.type ≡ error) turn.emitted
      (record (message error) { content = content; timestamp = now } ∷ []) h (refl, tt)

decide-IsErrors :
    (v : Verdict) (params : PermissionParams) (now : ℕ) (turn : Turn)
    → IsErrors turn.emitted
    → IsErrors (decide v params now turn).1.emitted
unfolding decide
decide-IsErrors (fails err) params now turn h =
    emit-IsErrors (bytes "acp: permission handler error: " ++ err) now turn h
decide-IsErrors (decides true) params now turn h = h
decide-IsErrors (decides false) params now turn h = h

handle_permission-IsErrors :
    (policy : Policy) (params : Decoded) (now : ℕ) (turn : Turn)
    → IsErrors turn.emitted
    → IsErrors (handle_permission policy params now turn).1.emitted
unfolding handle_permission
handle_permission-IsErrors policy (unreadable err) now turn h =
    emit-IsErrors (bytes "acp: unmarshal permission request: " ++ err) now turn h
handle_permission-IsErrors policy (readable params) now turn h =
    elim (Bool-cases (str_eq policy.hitl (bytes "off"))) [
      | inl off ↦ simp off h
      | inr on ↦ elim (Option-cases policy.handler) [
        | inl missing ↦ simp (on, missing) h
        | inr (handler, found) ↦
            simp (on, found) (decide-IsErrors (handler (request_of params)) params now turn h)
      ]
    ]

handle_event-IsErrors :
    (policy : Policy) (now : ℕ) (e : TurnEvent) (turn : Turn)
    → IsErrors turn.emitted
    → IsErrors (handle_event policy now e turn).emitted
unfolding handle_event
handle_event-IsErrors policy now (notified msg) turn h = h
handle_event-IsErrors policy now (requested params) turn h =
    handle_permission-IsErrors policy params now turn h

handle_events-IsErrors :
    (policy : Policy) (now : ℕ) (events : List TurnEvent) (turn : Turn)
    → IsErrors turn.emitted
    → IsErrors (handle_events policy now events turn).emitted
unfolding handle_events
handle_events-IsErrors policy now [] turn h = h
handle_events-IsErrors policy now (e ∷ events) turn h =
    handle_events-IsErrors policy now events (handle_event policy now e turn)
      (handle_event-IsErrors policy now e turn h)

finish_turn-emitted :
    (end : PromptEnd Str) (now : ℕ) (turn : Turn)
    → (finish_turn end now turn).1.emitted ≡ turn.emitted
unfolding finish_turn
finish_turn-emitted (answered r) now turn = refl
finish_turn-emitted _ now turn = refl

-- However a turn ends, it leaves both collectors sealed: updates and requests that come in late change
-- neither what it accumulated nor what was denied. If it is not answered, the channel of updates has
-- got exactly those that came in, and however it ends, what it has emitted beside them are error
-- messages only.
pub execute_send-isolated :
    (policy : Policy) (now : ℕ) (events late : List TurnEvent) (end : PromptEnd Str)
    → let turn = (execute_send policy now events end).1 in
      let after = handle_events policy now late turn in
      (after.accumulator ≡ turn.accumulator)
      × (after.denials ≡ turn.denials)
      × IsSilent end turn.updates (messages_of events)
      × IsErrors turn.emitted
unfolding execute_send
execute_send-isolated policy now events late end =
    let turn = handle_events policy now events new_turn in
    let start : IsRunning [] [] new_turn = record {
      sent = refl;
      collected = refl;
      unsealed = refl;
    } in
    let ran = handle_events-IsRunning policy now events [] [] new_turn start in
    let ended = finish_turn-IsSealed end now turn in
    let after = (finish_turn end now turn).1 in
    let kept =
      handle_events-IsSealed policy now late after.accumulator after.denials after ended.0 in
    (
      kept.deltas,
      kept.denied,
      subst (IsSilent end after.updates) ran.0.sent ended.1,
      subst IsErrors (sym (finish_turn-emitted end now turn))
          (handle_events-IsErrors policy now events new_turn tt),
    )
