-- ===== src/Tests/Renders.antt =====
-- src/kv_aware_router/tokenize.py on small inputs.
use kv_aware_router.Prelude.{◌≡◌, refl, [], ◌∷◌, ◌++◌, none, some, List, String, take, arith}
use kv_aware_router.Tokenize.{
  Message, message, not_a_dict, textless, has_text, bad_text, missing, null, text, blocks, utf8,
  encode, render_messages, join_blocks, encode-render_messages,
}

program : Unit {0}
unfolding utf8 encode render_messages join_blocks
program = tt

abbrev chat : List Message
chat =
    message (some "system") (text "Hi")
    ∷ message none (blocks (has_text "a" ∷ textless ∷ has_text "b" ∷ []))
    ∷ message (some "user") null
    ∷ message (some "user") missing
    ∷ []

chat-rendered : render_messages chat ≡ some "<|system|>Hi<|user|>ab<|user|>None<|user|>"
unfolding program
chat-rendered = refl

-- A message that is no object, and a block whose text is no string.
raising :
    (render_messages (message none missing ∷ not_a_dict ∷ []) ≡ none)
    × (render_messages (message none (blocks (has_text "a" ∷ bad_text ∷ [])) ∷ []) ≡ none)
unfolding program
raising = (refl, refl)

encoded :
    (utf8 "aé€😀" ≡ 97 ∷ 195 ∷ 169 ∷ 226 ∷ 130 ∷ 172 ∷ 240 ∷ 159 ∷ 152 ∷ 128 ∷ [])
    × (encode "abcde" ≡ 1_633_837_924 ∷ 1_694_498_816 ∷ [])
unfolding program
encoded = (refl, refl)

encode-render_messages_example :
    (t : String) × (render_messages (chat ++ chat) ≡ some t)
    × (utf8 t
        ≡ utf8 "<|system|>Hi<|user|>ab<|user|>None<|user|>"
          ++ utf8 "<|system|>Hi<|user|>ab<|user|>None<|user|>")
    × (take 5 (encode t) ≡ take 5 (encode "<|system|>Hi<|user|>ab<|user|>None<|user|>"))
unfolding program
encode-render_messages_example =
    encode-render_messages chat chat 5 "<|system|>Hi<|user|>ab<|user|>None<|user|>"
      "<|system|>Hi<|user|>ab<|user|>None<|user|>" refl refl (omega arith)
