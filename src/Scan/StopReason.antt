-- ===== src/Scan/StopReason.antt =====
-- The stop reason over a turn: the one that a mid-turn event reports reaches the turn's result.
use agentrun.Prelude.{
  ◌≡◌, ◌∙◌, ap, Str, true, false, List, [], ◌∷◌, arith, if◌then◌else◌, is_empty, All, Run, ◌>>=◌,
  Returns, Returns-bind, Returns-mono, Bool, map, subst, sym, refl,
}
use agentrun.Message.{Message, is_result, is_init}
use agentrun.Scan.{Env, Scan, carry_stop_reason, apply_context_fill, enrich_message, reset_peak}
use agentrun.Scan.Enriched.{TrackerIsValid, filled, Enriched, enriched}

-- The enrichment of the messages of a turn one after the other, as scanLines threads its variables:
-- the message that comes last, and the variables after it. Each message of the turn has with it whether
-- the backend itself reported it as an error, which lets the peak start anew, as in scan_message.
unfoldable pub enrich_turn : Env → Scan → List (Message × Bool) → Message → Run (Message × Scan)
enrich_turn env s [] last = enrich_message env s last
enrich_turn env s ((msg, backend_error) ∷ msgs) last =
    enrich_message env (reset_peak backend_error s) msg >>= λ r. enrich_turn env r.1 msgs last

-- A message that neither starts a session nor ends a turn.
abbrev pub IsMidTurn : Message → Type 0
IsMidTurn msg = (is_init msg.type ≡ false) × (is_result msg.type ≡ false)

-- The last reason that is not empty, or the first argument.
unfoldable pub last_reason : Str → List Message → Str
last_reason reason [] = reason
last_reason reason (msg ∷ msgs) =
    last_reason (if is_empty msg.stop_reason then reason else msg.stop_reason) msgs

module _ (env : Env) (s : Scan) (msg : Message) where
  carry-mid_turn :
      IsMidTurn msg
      → (carry_stop_reason msg s.last_stop_reason).1
        ≡ (if is_empty msg.stop_reason then s.last_stop_reason else msg.stop_reason)
  unfolding carry_stop_reason
  carry-mid_turn m = ground arith

  -- The fill does not touch the reason.
  stop_reason-filled :
      (filled env s msg).stop_reason ≡ (carry_stop_reason msg s.last_stop_reason).0.stop_reason
  unfolding apply_context_fill carry_stop_reason
  stop_reason-filled = ground arith

  carry-result :
      is_result msg.type ≡ true
      → (carry_stop_reason msg s.last_stop_reason).0.stop_reason
        ≡ (if is_empty msg.stop_reason then s.last_stop_reason else msg.stop_reason)
  unfolding carry_stop_reason
  carry-result m = ground arith

  carry-result_clears :
      is_result msg.type ≡ true → (carry_stop_reason msg s.last_stop_reason).1 ≡ []
  unfolding carry_stop_reason
  carry-result_clears m = ground arith

reset_peak-kept :
    (b : Bool) (s : Scan)
    → ((reset_peak b s).tracker ≡ s.tracker)
      × ((reset_peak b s).last_stop_reason ≡ s.last_stop_reason)
reset_peak-kept true s = (refl, refl)
reset_peak-kept false s = (refl, refl)

pub reset_peak-TrackerIsValid :
    (b : Bool) (s : Scan) → TrackerIsValid s.tracker → TrackerIsValid (reset_peak b s).tracker
reset_peak-TrackerIsValid b s v = subst TrackerIsValid (sym (reset_peak-kept b s).0) v

-- Over a turn of mid-turn messages that a result ends, no panic happens and the result carries its
-- own stop reason if it has one, otherwise the last one that a message of the turn reported,
-- otherwise the one carried into the turn; and nothing is carried out of the turn.
pub enrich_turn-stop_reason :
    (env : Env) (s : Scan) (msgs : List (Message × Bool)) (end : Message)
    → TrackerIsValid s.tracker
    → All IsMidTurn (map (λ m. m.0) msgs)
    → is_result end.type ≡ true
    → Returns
        (λ r.
          (r.0.stop_reason ≡ (
            if is_empty end.stop_reason
            then last_reason s.last_stop_reason (map (λ m. m.0) msgs)
            else end.stop_reason))
          × (r.1.last_stop_reason ≡ []))
        (enrich_turn env s msgs end)
unfolding enrich_turn last_reason
enrich_turn-stop_reason env s [] end v m h =
    Returns-mono (Enriched env s end) _ (enrich_message env s end) (enriched env s end v) λ r p. (
      ap (λ (sent : Message). sent.stop_reason) p.same
          ∙ stop_reason-filled env s end
          ∙ carry-result env s end h,
      p.last ∙ carry-result_clears env s end h,
    )
enrich_turn-stop_reason env s ((msg, b) ∷ msgs) end v m h =
    let s' = reset_peak b s in
    let v' = reset_peak-TrackerIsValid b s v in
    Returns-bind (Enriched env s' msg) _ (enrich_message env s' msg) _ (enriched env s' msg v')
      λ r p.
        Returns-mono _ _ (enrich_turn env r.1 msgs end)
          (enrich_turn-stop_reason env r.1 msgs end p.valid m.1 h)
          λ q out. (
            out.0
                ∙ ap
                    (λ reason.
                      if is_empty end.stop_reason
                      then last_reason reason (map (λ m. m.0) msgs)
                      else end.stop_reason)
                    (p.last
                      ∙ carry-mid_turn env s' msg m.0
                      ∙ ap (λ last. if is_empty msg.stop_reason then last else msg.stop_reason)
                          (reset_peak-kept b s).1),
            out.1,
          )
