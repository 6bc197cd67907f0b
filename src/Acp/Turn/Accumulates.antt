-- ===== src/Acp/Turn/Accumulates.antt =====
-- What the accumulator of a turn holds.
use agentrun.Prelude.{
  ℕ, zero, suc, ◌-◌, ◌≤◌, ltb, ◌≡◌, refl, ap, sym, ◌∙◌, Str, Bool, true, false, List, [], ◌∷◌, ◌++◌,
  if◌then◌else◌, length, take, arith, Bool-cases, inl, inr, length-take, append-nil, append_assoc,
}
use agentrun.Message.{MessageType, Message, text_delta, thinking_delta}
use agentrun.Acp.Turn.{
  max_accumulated_content, Accumulator, new_accumulator, truncate_to_cap, write_delta, observe,
}

abbrev pub is_text_delta : MessageType → Bool
is_text_delta text_delta = true
is_text_delta _ = false

abbrev pub is_thinking_delta : MessageType → Bool
is_thinking_delta thinking_delta = true
is_thinking_delta _ = false

-- All content of the messages whose type passes a test, in order.
unfoldable pub joined : (MessageType → Bool) → List Message → Str
joined p [] = []
joined p (msg ∷ msgs) = let rest = joined p msgs in if p msg.type then msg.content ++ rest else rest

take_none : (n : ℕ) (s : Str) → n ≡ 0 → take n s ≡ []
take_none zero s e = refl
take_none (suc n) s e = absurd (omega arith)

take_all : (n : ℕ) (s : Str) → length s ≤ n → take n s ≡ s
take_all zero [] h = refl
take_all (suc n) [] h = refl
take_all zero (b ∷ s) h = absurd (omega arith)
take_all (suc n) (b ∷ s) h = ap (λ t. b ∷ t) (take_all n s (omega arith))

take_nothing : (n : ℕ) → ◌≡◌ {A = Str} (take n []) []
take_nothing zero = refl
take_nothing (suc n) = refl

take_append : (n m : ℕ) (w s : Str) → m ≡ n - length w → take n (w ++ s) ≡ take n w ++ take m s
take_append zero m w s e = sym (take_none m s (omega arith))
take_append (suc n) m [] s e = let same : suc n ≡ m = omega arith in ap (λ k. take k s) same
take_append (suc n) m (b ∷ w) s e = ap (λ t. b ∷ t) (take_append n m w s (omega arith))

truncate_to_cap-take :
    (s : Str) (n m : ℕ) → m ≡ max_accumulated_content - n → truncate_to_cap s n ≡ take m s
unfolding truncate_to_cap
truncate_to_cap-take s n m e = ground (arith, take_none m s, take_all m s)

-- A delta on top of a prefix that is cut to the cap.
write_delta-take :
    (content so_far : Str)
    → write_delta content (take max_accumulated_content so_far)
      ≡ take max_accumulated_content (so_far ++ content)
unfolding write_delta
write_delta-take [] so_far = ap (take max_accumulated_content) (sym (append-nil so_far))
write_delta-take (b ∷ content) so_far =
    elim (Bool-cases (ltb (length (take max_accumulated_content so_far)) max_accumulated_content)) [
      | inl room ↦ rw room (
          ap (λ t. take max_accumulated_content so_far ++ t)
            (truncate_to_cap-take (b ∷ content) (length (take max_accumulated_content so_far))
              (max_accumulated_content - length so_far)
              (omega (arith, length-take max_accumulated_content so_far)))
          ∙ sym (
              take_append max_accumulated_content (max_accumulated_content - length so_far) so_far
                (b ∷ content) refl))
      | inr full ↦ rw full (
          sym (
            take_append max_accumulated_content (max_accumulated_content - length so_far) so_far
              (b ∷ content) refl
            ∙ ap (λ t. take max_accumulated_content so_far ++ t)
                (take_none (max_accumulated_content - length so_far) (b ∷ content)
                  (ground (arith, length-take max_accumulated_content so_far)))
            ∙ append-nil (take max_accumulated_content so_far)))
    ]

-- An unsealed accumulator that holds, up to the cap, what was joined so far of either kind.
pub record Holds (t h : Str) (ta : Accumulator) : Type 0 where
  pub texts : ta.text ≡ take max_accumulated_content t
  pub thoughts : ta.thinking ≡ take max_accumulated_content h
  pub unsealed : ta.is_sealed ≡ false

observe-Holds :
    (type : MessageType) (msg : Message) (t h : Str) (ta : Accumulator)
    → msg.type ≡ type
    → Holds t h ta
    → Holds
        (if is_text_delta type then t ++ msg.content else t)
        (if is_thinking_delta type then h ++ msg.content else h)
        (observe msg ta)
unfolding observe
observe-Holds text_delta msg t h ta e k = ground (arith, write_delta-take msg.content t)
observe-Holds thinking_delta msg t h ta e k = ground (arith, write_delta-take msg.content h)
observe-Holds _ msg t h ta e k = ground arith

-- observe on every message of a list.
unfoldable pub observe_all : List Message → Accumulator → Accumulator
observe_all [] ta = ta
observe_all (msg ∷ msgs) ta = observe_all msgs (observe msg ta)

joined-step :
    (p : MessageType → Bool) (msg : Message) (msgs : List Message) (t : Str)
    → (if p msg.type then t ++ msg.content else t) ++ joined p msgs ≡ t ++ joined p (msg ∷ msgs)
unfolding joined
joined-step p msg msgs t = elim (Bool-cases (p msg.type)) [
  | inl chosen ↦ rw chosen (append_assoc t msg.content (joined p msgs))
  | inr skipped ↦ rw skipped refl
]

pub observe_all-Holds :
    (msgs : List Message) (t h : Str) (ta : Accumulator)
    → Holds t h ta
    → Holds
        (t ++ joined is_text_delta msgs)
        (h ++ joined is_thinking_delta msgs)
        (observe_all msgs ta)
unfolding observe_all joined
observe_all-Holds [] t h ta k = rw (append-nil t, append-nil h) k
observe_all-Holds (msg ∷ msgs) t h ta k =
    let next =
      observe_all-Holds msgs _ _ (observe msg ta) (observe-Holds msg.type msg t h ta refl k) in
    rw (joined-step is_text_delta msg msgs t, joined-step is_thinking_delta msg msgs h) at next

-- A new accumulator behind the messages of a turn.
pub new_accumulator-Holds :
    (msgs : List Message)
    → Holds
        (joined is_text_delta msgs)
        (joined is_thinking_delta msgs)
        (observe_all msgs new_accumulator)
new_accumulator-Holds msgs =
    let start : Holds [] [] new_accumulator = record {
      texts = sym (take_nothing max_accumulated_content);
      thoughts = sym (take_nothing max_accumulated_content);
      unsealed = refl;
    } in
    observe_all-Holds msgs [] [] new_accumulator start
