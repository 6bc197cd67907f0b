-- ===== src/Filter/Pipe.antt =====
-- What the channel that a filter returns carries.
use agentrun.Prelude.{
  ◌≡◌, refl, ap, Bool, true, List, [], ◌∷◌, ◌++◌, length, take, keep, map, Bool-cases, inl, inr,
}
use agentrun.Message.{Message}
use agentrun.Filter.{Choice, cancelled, receives, receives_then_cancelled, closed, pipe}

-- The messages that the source channel gives, in order.
pub offered : List Choice → List Message
offered [] = []
offered (cancelled ∷ choices) = offered choices
offered (closed ∷ choices) = offered choices
offered (receives msg ∷ choices) = msg ∷ offered choices
offered (receives_then_cancelled msg ∷ choices) = msg ∷ offered choices

-- Whatever the environment does, the channel carries the accepted messages of the source in their
-- order, from the first on and without a gap: what a cancellation cuts off is a tail.
pub pipe-in_order :
    (accept : Message → Bool) (choices : List Choice)
    → (pipe accept choices).0
      ≡ take (length (pipe accept choices).0) (keep accept (offered choices))
unfolding pipe offered
pipe-in_order accept [] = refl
pipe-in_order accept (cancelled ∷ choices) = refl
pipe-in_order accept (closed ∷ choices) = refl
pipe-in_order accept (receives msg ∷ choices) = elim (Bool-cases (accept msg)) [
  | inl accepted ↦ rw accepted (ap (λ msgs. msg ∷ msgs) (pipe-in_order accept choices))
  | inr dropped ↦ rw dropped (pipe-in_order accept choices)
]
pipe-in_order accept (receives_then_cancelled msg ∷ choices) = elim (Bool-cases (accept msg)) [
  | inl accepted ↦ rw accepted refl
  | inr dropped ↦ rw dropped (pipe-in_order accept choices)
]

-- With no cancellation before the source is closed, nothing that the predicate accepts is lost, nothing
-- else is sent, and the loop ends.
pub pipe_complete :
    (accept : Message → Bool) (msgs : List Message) (choices : List Choice)
    → pipe accept (map receives msgs ++ closed ∷ choices) ≡ (keep accept msgs, true)
unfolding pipe
pipe_complete accept [] choices = refl
pipe_complete accept (msg ∷ msgs) choices = elim (Bool-cases (accept msg)) [
  | inl accepted ↦ rw (accepted, pipe_complete accept msgs choices) refl
  | inr dropped ↦ rw (dropped, pipe_complete accept msgs choices) refl
]
