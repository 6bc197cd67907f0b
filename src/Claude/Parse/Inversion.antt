-- ===== src/Claude/Parse/Inversion.antt =====
-- Which message a line becomes.
use agentrun.Prelude.{◌≡◌, refl, Str, bytes, is_empty, Bool-cases, inl, inr, sym}
use agentrun.Message.{Message}
use agentrun.Scan.{parsed}
use agentrun.Blocks.{is_blank}
use agentrun.Json.{Object, Codec, Decoding, invalid, decoded, get_string}
use agentrun.Claude.Parse.{event_message, parse_object, by_decoding, parse_line}

parsed_inj : {a b : Message} → parsed a ≡ parsed b → a ≡ b
parsed_inj e = cc

pub decoded_inj : {a b : Object} → decoded a ≡ decoded b → a ≡ b
decoded_inj e = cc

parse_object-parsed :
    (codec : Codec) (line : Str) (raw : Object) (msg : Message)
    → parse_object codec line raw ≡ parsed msg
    → msg ≡ event_message codec line raw
unfolding parse_object
parse_object-parsed codec line raw msg e =
    elim (Bool-cases (is_empty (get_string raw (bytes "type")))) [
      | inl missing ↦ absurd (cc (simp missing at e))
      | inr typed ↦ sym (parsed_inj (simp typed at e))
    ]

by_decoding-parsed :
    (codec : Codec) (line : Str) (d : Decoding) (msg : Message)
    → by_decoding codec line d ≡ parsed msg
    → (raw : Object) × (d ≡ decoded raw) × (msg ≡ event_message codec line raw)
unfolding by_decoding
by_decoding-parsed codec line (invalid err) msg e = absurd (cc e)
by_decoding-parsed codec line (decoded raw) msg e =
    (raw, refl, parse_object-parsed codec line raw msg e)

pub parse_line-parsed :
    (codec : Codec) (line : Str) (msg : Message)
    → parse_line codec line ≡ parsed msg
    → (raw : Object) × (codec.decode line ≡ decoded raw) × (msg ≡ event_message codec line raw)
unfolding parse_line
parse_line-parsed codec line msg e = elim (Bool-cases (is_blank line)) [
  | inl blank ↦ absurd (cc (simp blank at e))
  | inr written ↦ by_decoding-parsed codec line (codec.decode line) msg (simp written at e)
]
