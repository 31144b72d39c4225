-- ===== src/Tokenize.antt =====
-- src/kv_aware_router/tokenize.py: `ByteTokenizer` and `render_messages`. `HFTokenizer` only calls
-- the `tokenizers` package.
use Prim.Native.String.{◌++◌ as join}
use Prim.Native.String.append
use Prim.Native.Char.{code}
use mathlib.Core.Option
use kv_aware_router.Prelude.{
  none, some, ℕ, zero, suc, ◌+◌, ◌*◌, ◌/◌, ◌%◌, ◌≤◌, ◌≡◌, ◌∙◌, refl, sym, ap, List, [], ◌∷◌, ◌++◌,
  Option, String, ltb, if◌then◌else◌, length, take, arith,
}
use kv_aware_router.Radix.Node.{Tokens}

-- The UTF-8 bytes of a code point.
unfoldable pub utf8_char : ℕ → List ℕ
utf8_char c =
    if ltb c 128
    then c ∷ []
    else if ltb c 2048
    then (192 + c / 64) ∷ (128 + c % 64) ∷ []
    else if ltb c 65536
    then (224 + c / 4096) ∷ (128 + c / 64 % 64) ∷ (128 + c % 64) ∷ []
    else (240 + c / 262144) ∷ (128 + c / 4096 % 64) ∷ (128 + c / 64 % 64) ∷ (128 + c % 64) ∷ []

-- `text.encode("utf-8")`
unfoldable pub utf8 : String → List ℕ
unfolding utf8_char
utf8 String.[] = []
utf8 (String.◌∷◌ c s) = utf8_char (code c) ++ utf8 s

-- `int.from_bytes(..., "big")` of four bytes.
abbrev pub word : ℕ → ℕ → ℕ → ℕ → ℕ
word a b c d = ((a * 256 + b) * 256 + c) * 256 + d

-- The slices of four bytes, the last one filled up with zeros.
unfoldable pub words : List ℕ → Tokens
words [] = []
words (a ∷ []) = word a 0 0 0 ∷ []
words (a ∷ b ∷ []) = word a b 0 0 ∷ []
words (a ∷ b ∷ c ∷ []) = word a b c 0 ∷ []
words (a ∷ b ∷ c ∷ d ∷ rest) = word a b c d ∷ words rest

-- `ByteTokenizer.encode`
unfoldable pub encode : String → Tokens
unfolding utf8 words
encode text = words (utf8 text)

-- A content block: one that is no `dict` or has no text, a text, or a text that is no string.
pub data Block : Type 0 where
  textless bad_text : Block
  has_text : String → Block

-- `message.get("content", "")`: nothing, a null, a text, or a list of blocks. Any other value stands
-- as the text that Python formats it to.
pub data Content : Type 0 where
  missing null : Content
  text : String → Content
  blocks : List Block → Content

-- A message: one that is no `dict`, or its role, where it has one, and its content.
pub data Message : Type 0 where
  not_a_dict : Message
  message : Option String → Content → Message

-- One text after another, where neither raised.
abbrev pub join_texts : Option String → Option String → Option String
join_texts (some s) (some t) = some (join s t)
join_texts _ _ = none

-- `"".join(block.get("text", "") ...)`; `none` is the `TypeError`.
unfoldable pub join_blocks : List Block → Option String
join_blocks [] = some ""
join_blocks (textless ∷ bs) = join_blocks bs
join_blocks (bad_text ∷ bs) = none
join_blocks (has_text s ∷ bs) = join_texts (some s) (join_blocks bs)

abbrev pub content_text : Content → Option String
content_text missing = some ""
content_text null = some "None"
content_text (text s) = some s
content_text (blocks bs) = join_blocks bs

-- `none` is the `AttributeError` of a message that is no `dict`, or the error of its content.
abbrev pub render_message : Message → Option String
render_message not_a_dict = none
render_message (message role content) =
    join_texts (some (join "<|" (join (Option.get_or role "user") "|>"))) (content_text content)

-- `none` where a message raises.
unfoldable pub render_messages : List Message → Option String
unfolding join_blocks
render_messages [] = some ""
render_messages (m ∷ ms) = join_texts (render_message m) (render_messages ms)

join_bytes : (xs ys zs : List ℕ) → (xs ++ ys) ++ zs ≡ xs ++ (ys ++ zs)
join_bytes [] ys zs = refl
join_bytes (x ∷ xs) ys zs = ap (◌∷◌ x) (join_bytes xs ys zs)

utf8-join : (s t : String) → utf8 (join s t) ≡ utf8 s ++ utf8 t
unfolding utf8
utf8-join String.[] t = ap utf8 (append.nil t)
utf8-join (String.◌∷◌ c s) t =
    ap utf8 (append.cons c s t)
    ∙ ap (utf8_char (code c) ++◌) (utf8-join s t)
    ∙ sym (join_bytes (utf8_char (code c)) (utf8 s) (utf8 t))

-- What a rendering that does not raise is made of.
render_cases :
    (m : Message) (ms : List Message) (s : String)
    → render_messages (m ∷ ms) ≡ some s
    → (a : String) × (b : String) × (render_message m ≡ some a)
      × (render_messages ms ≡ some b)
      × (join a b ≡ s)
unfolding render_messages
render_cases m ms s h = joined (render_message m) (render_messages ms) h
  where
    joined :
        (x y : Option String)
        → join_texts x y ≡ some s
        → (a : String) × (b : String) × (x ≡ some a) × (y ≡ some b) × (join a b ≡ s)
    joined none none e = absurd (ground (arith, e))
    joined none (some b) e = absurd (ground (arith, e))
    joined (some a) none e = absurd (ground (arith, e))
    joined (some a) (some b) e = (a, b, refl, refl, ground (arith, e))

render_cons :
    (m : Message) (ms : List Message) (a b : String)
    → render_message m ≡ some a
    → render_messages ms ≡ some b
    → render_messages (m ∷ ms) ≡ some (join a b)
render_cons m ms a b e f =
    unfold render_messages in
    ap (λ x. join_texts x (render_messages ms)) e ∙ ap (join_texts (some a)) f

-- Later messages only add bytes at the end.
utf8-render_messages :
    (ms ns : List Message) (s u : String)
    → render_messages ms ≡ some s
    → render_messages ns ≡ some u
    → (t : String) × (render_messages (ms ++ ns) ≡ some t) × (utf8 t ≡ utf8 s ++ utf8 u)
unfolding utf8
utf8-render_messages [] ns s u h k =
    let same : "" ≡ s = unfold render_messages in ground (arith, h) in
    (u, k, ap (λ x. utf8 x ++ utf8 u) same)
utf8-render_messages (m ∷ ms) ns s u h k =
    let (a, b, ea, eb, same) = render_cases m ms s h in
    let (t, et, bytes) = utf8-render_messages ms ns b u eb k in
    (
      join a t,
      render_cons m (ms ++ ns) a t ea et,
      utf8-join a t
          ∙ ap (utf8 a ++◌) bytes
          ∙ sym (join_bytes (utf8 a) (utf8 b) (utf8 u))
          ∙ ap (◌++ utf8 u) (sym (utf8-join a b) ∙ ap utf8 same),
    )

words-take :
    (k : ℕ) (xs ys : List ℕ) → 4 * k ≤ length xs → take k (words (xs ++ ys)) ≡ take k (words xs)
unfolding words
words-take zero xs ys h = refl
words-take (suc k) [] ys h = absurd (omega (arith, h))
words-take (suc k) (a ∷ []) ys h = absurd (omega (arith, h))
words-take (suc k) (a ∷ b ∷ []) ys h = absurd (omega (arith, h))
words-take (suc k) (a ∷ b ∷ c ∷ []) ys h = absurd (omega (arith, h))
words-take (suc k) (a ∷ b ∷ c ∷ d ∷ xs) ys h =
    ap (◌∷◌ (word a b c d)) (words-take k xs ys (omega (arith, h)))

-- A conversation that goes on keeps its prefix: where neither part raises, the two together are
-- rendered to the bytes of the one followed by those of the other, and the tokens that the bytes of
-- the first one fill are the same when more messages follow. A last token that the bytes do not fill
-- is not among them.
pub encode-render_messages :
    (ms ns : List Message) (k : ℕ) (s u : String)
    → render_messages ms ≡ some s
    → render_messages ns ≡ some u
    → 4 * k ≤ length (utf8 s)
    → (t : String) × (render_messages (ms ++ ns) ≡ some t)
      × (utf8 t ≡ utf8 s ++ utf8 u)
      × (take k (encode t) ≡ take k (encode s))
unfolding encode
encode-render_messages ms ns k s u h more filled =
    let (t, rendered, bytes) = utf8-render_messages ms ns s u h more in
    (t, rendered, bytes, ap (λ b. take k (words b)) bytes ∙ words-take k (utf8 s) (utf8 u) filled)
