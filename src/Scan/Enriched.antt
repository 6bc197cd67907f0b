-- ===== src/Scan/Enriched.antt =====
-- enrichMessage as a whole: with valid books it does not panic, and its message is the one that the
-- two enrichments make, but for the background stamp.
use agentrun.Prelude.{
  ◌≡◌, refl, false, ◌&&◌, ◌||◌, Option, none, some, arith, if◌then◌else◌, has, returns, Returns,
  Returns-bind,
}
use agentrun.Message.{Message, is_result, is_task_result}
use agentrun.Tracker.{BackgroundTracker, observe, stamp}
use agentrun.Tracker.Invariant.{IsValid}
use agentrun.Tracker.Observe.{observe-IsValid}
use agentrun.Scan.{
  Env, Scan, carry_stop_reason, apply_context_fill, track, with_process_meta, enrich_message,
}

abbrev pub TrackerIsValid : Option BackgroundTracker → Type 0
TrackerIsValid none = Unit
TrackerIsValid (some t) = IsValid t

-- The message before the tracker sees it, and the peak.
abbrev pub filled : Env → Scan → Message → Message
filled env s msg =
    (apply_context_fill (with_process_meta env (carry_stop_reason msg s.last_stop_reason).0)
      s.max_call_fill).0

record Tracked (tracker : Option BackgroundTracker) (msg : Message)
    (r : Message × Option BackgroundTracker) : Type 0 where
  valid : TrackerIsValid r.1
  same : r.0 ≡ record msg { background = r.0.background }
  tracks : has r.1 ≡ has tracker
  stamped :
      msg.background ≡ none
      → has r.0.background ≡ (has tracker && (is_result msg.type || is_task_result msg.type))

tracked :
    (tracker : Option BackgroundTracker) (msg : Message)
    → TrackerIsValid tracker
    → Returns (Tracked tracker msg) (track tracker msg)
unfolding track stamp
tracked none msg v = record { valid = tt; same = refl; tracks = refl; stamped = λ h. ground arith }
tracked (some t) msg v =
    Returns-bind IsValid (Tracked (some t) msg) (observe t msg)
      (λ t'.
        returns
          (if is_result msg.type || is_task_result msg.type then stamp t' msg else msg, some t'))
      (observe-IsValid t msg v)
      λ t' v'. record {
        valid = v';
        same = ground arith;
        tracks = refl;
        stamped = λ h. ground arith;
      }

pub record Enriched (env : Env) (s : Scan) (msg : Message) (r : Message × Scan) : Type 0 where
  pub valid : TrackerIsValid r.1.tracker
  pub same : r.0 ≡ record (filled env s msg) { background = r.0.background }
  pub last : r.1.last_stop_reason ≡ (carry_stop_reason msg s.last_stop_reason).1
  pub peak :
      r.1.max_call_fill
      ≡ (apply_context_fill
          (with_process_meta env (carry_stop_reason msg s.last_stop_reason).0)
          s.max_call_fill).1
  pub tracks : has r.1.tracker ≡ has s.tracker
  pub stamped :
      msg.background ≡ none
      → has r.0.background ≡ (has s.tracker && (is_result msg.type || is_task_result msg.type))
  pub awaiting : r.1.awaiting_result ≡ (if is_result msg.type then false else s.awaiting_result)

-- The enrichments change neither the type nor the background.
pub filled-same :
    (env : Env) (s : Scan) (msg : Message)
    → ((filled env s msg).type ≡ msg.type) × ((filled env s msg).background ≡ msg.background)
unfolding carry_stop_reason apply_context_fill
filled-same env s msg = (ground arith, ground arith)

pub enriched :
    (env : Env) (s : Scan) (msg : Message)
    → TrackerIsValid s.tracker
    → Returns (Enriched env s msg) (enrich_message env s msg)
unfolding enrich_message
enriched env s msg v =
    Returns-bind (Tracked s.tracker (filled env s msg)) (Enriched env s msg)
      (track s.tracker (filled env s msg)) _ (tracked s.tracker (filled env s msg) v)
      λ r p. record {
        valid = p.valid;
        same = p.same;
        last = refl;
        peak = refl;
        tracks = p.tracks;
        stamped = λ h. ground (arith, filled-same env s msg, p.stamped);
        awaiting = refl;
      }
