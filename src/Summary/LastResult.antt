-- ===== src/Summary/LastResult.antt =====
-- The fields of a summary that the last result of the turn sets.
use agentrun.Prelude.{
  ◌≡◌, refl, false, Option, none, some, List, [], ◌∷◌, if◌then◌else◌, has, Bool-cases, inl, inr,
}
use agentrun.Message.{MessageType, Message, result, other, is_result}
use agentrun.Filter.{is_delta}
use agentrun.Summary.{TurnSummary, empty_summary, add_fields, add, add_all}

-- The last result among the messages, or the one found before them.
pub last_result : List Message → Option Message → Option Message
last_result [] found = found
last_result (msg ∷ msgs) found =
    let with_it = last_result msgs (some msg) in
    let without_it = last_result msgs found in if is_result msg.type then with_it else without_it

abbrev pub or_none {ℓ} : {A : Type ℓ} → (Message → A) → A → Option Message → A
or_none field default none = default
or_none field default (some msg) = field msg

IsResultOf : Option Message → TurnSummary → Type 0
IsResultOf found s =
    (s.result ≡ has found)
    × (s.usage ≡ or_none (λ m. m.usage) none found)
    × (s.stop_reason ≡ or_none (λ m. m.stop_reason) [] found)
    × (s.denials ≡ or_none (λ m. m.denials) [] found)
    × (s.is_error ≡ or_none (λ m. m.is_error) false found)

add-IsResultOf :
    (t : MessageType) (s : TurnSummary) (msg : Message) (found : Option Message)
    → msg.type ≡ t
    → IsResultOf found s
    → IsResultOf (if is_result t then some msg else found) (add s msg)
unfolding add add_fields is_delta IsResultOf
add-IsResultOf result s msg found e h = simp e (refl, refl, refl, refl, refl)
add-IsResultOf (other x) s msg found e h = elim (Bool-cases (is_delta (other x))) [
  | inl delta ↦ simp (e, delta) h
  | inr complete ↦ simp (e, complete) h
]
add-IsResultOf t s msg found e h = simp e h

add_all-IsResultOf :
    (s : TurnSummary) (msgs : List Message) (found : Option Message)
    → IsResultOf found s
    → IsResultOf (last_result msgs found) (add_all s msgs)
unfolding add_all last_result
add_all-IsResultOf s [] found h = h
add_all-IsResultOf s (msg ∷ msgs) found h =
    let next = add-IsResultOf msg.type s msg found refl h in
    elim (Bool-cases (is_result msg.type)) [
      | inl is ↦ rw is (add_all-IsResultOf (add s msg) msgs (some msg) (rw is at next))
      | inr isnt ↦ rw isnt (add_all-IsResultOf (add s msg) msgs found (rw isnt at next))
    ]

-- A summary of any messages says whether there is a result among them, and its usage, stop reason,
-- denials and error flag are those of the last result, or unset without one.
pub add_all-last_result :
    (msgs : List Message)
    → let s = add_all empty_summary msgs in
      let found = last_result msgs none in
      (s.result ≡ has found)
      × (s.usage ≡ or_none (λ m. m.usage) none found)
      × (s.stop_reason ≡ or_none (λ m. m.stop_reason) [] found)
      × (s.denials ≡ or_none (λ m. m.denials) [] found)
      × (s.is_error ≡ or_none (λ m. m.is_error) false found)
unfolding IsResultOf
add_all-last_result msgs = add_all-IsResultOf empty_summary msgs none (refl, refl, refl, refl, refl)
