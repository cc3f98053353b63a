-- ===== src/Bridge/Message/Layout.antt =====
-- Texts that are made of pieces of fixed widths, as a CCTP message is, and numbers as hexadecimal
-- digits.
use Prim.Native.Char.{Char}
use wizpay_core.Prelude.{
  ℕ, zero, suc, ◌+◌, ◌-◌, ◌*◌, ◌/◌, ◌%◌, ◌^◌, ◌<◌, ◌≤◌, ◌≡◌, refl, ◌∙◌, ap, sym, String, List, [],
  ◌∷◌, arith, length as count_of,
}
use wizpay_core.Prelude.Text.{take_chars, drop_chars, append, prefixed}
use wizpay_core.Chain.{length, is_digit}
use wizpay_core.Bridge.Message.{
  value_from, big_int, last_40, slice_bytes, read_number, read_address,
}
use wizpay_core.Bridge.{Runtime}

-- The character at a place of a text.
abbrev pick : ℕ → String → Char
pick n String.[] = "0"
pick zero (String.◌∷◌ c s) = c
pick (suc n) (String.◌∷◌ c s) = pick n s

-- A digit, in small letters.
abbrev pub digit_char : ℕ → Char
digit_char n = pick n "0123456789abcdef"

-- A number in a number of digits.
unfoldable pub hex_of : ℕ → ℕ → String
hex_of zero n = ""
hex_of (suc w) n = append (hex_of w (n / 16)) (String.◌∷◌ (digit_char (n % 16)) "")

pub length-append : (s t : String) → length (append s t) ≡ length s + length t
length-append String.[] t = omega arith
length-append (String.◌∷◌ c s) t = omega (arith, length-append s t)

pub length-hex_of : (w n : ℕ) → length (hex_of w n) ≡ w
unfolding hex_of
length-hex_of zero n = refl
length-hex_of (suc w) n = omega (
  arith,
  length-append (hex_of w (n / 16)) (String.◌∷◌ (digit_char (n % 16)) ""),
  length-hex_of w (n / 16),
)

value-append :
    (s : String) (acc : ℕ) (c : Char)
    → value_from acc (append s (String.◌∷◌ c "")) ≡ value_from (value_from acc s) (String.◌∷◌ c "")
value-append String.[] acc c = refl
value-append (String.◌∷◌ d s) acc c = value-append s _ c

value-digit : (acc d : ℕ) → d < 16 → value_from acc (String.◌∷◌ (digit_char d) "") ≡ acc * 16 + d
unfolding is_digit
value-digit acc zero h = refl
value-digit acc (suc zero) h = refl
value-digit acc (suc (suc zero)) h = refl
value-digit acc (suc (suc (suc zero))) h = refl
value-digit acc (suc (suc (suc (suc zero)))) h = refl
value-digit acc (suc (suc (suc (suc (suc zero))))) h = refl
value-digit acc (suc (suc (suc (suc (suc (suc zero)))))) h = refl
value-digit acc (suc (suc (suc (suc (suc (suc (suc zero))))))) h = refl
value-digit acc (suc (suc (suc (suc (suc (suc (suc (suc zero)))))))) h = refl
value-digit acc (suc (suc (suc (suc (suc (suc (suc (suc (suc zero))))))))) h = refl
value-digit acc (suc (suc (suc (suc (suc (suc (suc (suc (suc (suc zero)))))))))) h = refl
value-digit acc (suc (suc (suc (suc (suc (suc (suc (suc (suc (suc (suc zero))))))))))) h = refl
value-digit acc (suc (suc (suc (suc (suc (suc (suc (suc (suc (suc (suc (suc zero)))))))))))) h =
    refl
value-digit acc (suc (suc (suc (suc (suc (suc (suc (suc (suc (suc (suc (suc (suc zero)))))))))))))
      h =
    refl
value-digit acc
      (suc (suc (suc (suc (suc (suc (suc (suc (suc (suc (suc (suc (suc (suc zero)))))))))))))) h =
    refl
value-digit acc
      (suc (suc (suc (suc (suc (suc (suc (suc (suc (suc (suc (suc (suc (suc (suc zero)))))))))))))))
      h =
    refl
value-digit acc
      (suc
        (suc (suc (suc (suc (suc (suc (suc (suc (suc (suc (suc (suc (suc (suc (suc n))))))))))))))))
      h =
    omega arith

-- A number that fits in the digits is read back.
pub value-hex_of : (w n : ℕ) → n < 16 ^ w → value_from 0 (hex_of w n) ≡ n
unfolding hex_of
value-hex_of zero n h = omega arith
value-hex_of (suc w) n h =
    value-append (hex_of w (n / 16)) 0 (digit_char (n % 16))
    ∙ ap (λ v. value_from v (String.◌∷◌ (digit_char (n % 16)) ""))
        (value-hex_of w (n / 16) (omega arith))
    ∙ value-digit (n / 16) (n % 16) (omega arith)
    ∙ omega arith

-- Pieces one after the other, and the widths of the first of them.
abbrev pub concat : List String → String
concat [] = ""
concat (p ∷ ps) = append p (concat ps)

abbrev pub Fits : List ℕ → List String → Type 0
Fits [] ps = Unit {0}
Fits (w ∷ ws) [] = ⊥
Fits (w ∷ ws) (p ∷ ps) = (length p ≡ w) × Fits ws ps

abbrev pub piece : ℕ → List String → String
piece k [] = ""
piece zero (p ∷ ps) = p
piece (suc k) (p ∷ ps) = piece k ps

abbrev pub width : ℕ → List ℕ → ℕ
width k [] = 0
width zero (w ∷ ws) = w
width (suc k) (w ∷ ws) = width k ws

abbrev pub offset : ℕ → List ℕ → ℕ
offset k [] = 0
offset zero (w ∷ ws) = 0
offset (suc k) (w ∷ ws) = w + offset k ws

take-append : (s t : String) (n : ℕ) → length s ≡ n → take_chars n (append s t) ≡ s
take-append String.[] t zero h = refl
take-append String.[] t (suc n) h = ground arith
take-append (String.◌∷◌ c s) t zero h = ground arith
take-append (String.◌∷◌ c s) t (suc n) h = ap (String.◌∷◌ c) (take-append s t n (omega arith))

drop-append :
    (s t : String) (n k : ℕ) → length s ≡ n → drop_chars (n + k) (append s t) ≡ drop_chars k t
drop-append String.[] t zero k h = ap (λ m. drop_chars m t) (omega arith)
drop-append String.[] t (suc n) k h = ground arith
drop-append (String.◌∷◌ c s) t zero k h = ground arith
drop-append (String.◌∷◌ c s) t (suc n) k h =
    let next : suc n + k ≡ suc (n + k) = omega arith in
    ap (λ m. drop_chars m (append (String.◌∷◌ c s) t)) next ∙ drop-append s t n k (omega arith)

abbrev pub total : List ℕ → ℕ
total [] = 0
total (w ∷ ws) = w + total ws

pub total-le-length : (ws : List ℕ) (ps : List String) → Fits ws ps → total ws ≤ length (concat ps)
total-le-length [] ps f = omega arith
total-le-length (w ∷ ws) [] f = elim f [ ]
total-le-length (w ∷ ws) (p ∷ ps) (e, f) =
    omega (arith, length-append p (concat ps), total-le-length ws ps f)

-- A piece is what stands at its offset, in its width.
pub piece_at :
    (k : ℕ) (ws : List ℕ) (ps : List String)
    → Fits ws ps
    → k < count_of ws
    → take_chars (width k ws) (drop_chars (offset k ws) (concat ps)) ≡ piece k ps
piece_at k [] ps f h = ground arith
piece_at zero (w ∷ ws) [] f h = elim f [ ]
piece_at (suc k) (w ∷ ws) [] f h = elim f [ ]
piece_at zero (w ∷ ws) (p ∷ ps) (e, f) h = take-append p (concat ps) w e
piece_at (suc k) (w ∷ ws) (p ∷ ps) (e, f) h =
    ap (take_chars (width k ws)) (drop-append p (concat ps) w (offset k ws) e)
    ∙ piece_at k ws ps f (omega arith)

-- The last 40 characters of a text that ends with 40.
pub last_40-append : (s t : String) → length t ≡ 40 → last_40 (append s t) ≡ t
last_40-append s t h =
    let most : length (append s t) - 40 ≡ length s + 0 = omega (arith, length-append s t) in
    ap (λ n. drop_chars n (append s t)) most ∙ drop-append s t (length s) 0 refl

-- Reading the piece at a place of a message: its digits, the number and the address in it.
module _ (ws : List ℕ) (ps : List String) (fits : Fits ws ps) (k start bytes : ℕ)
    (inside : k < count_of ws) (wide : width k ws ≡ bytes * 2)
    (from : offset k ws ≡ 2 + start * 2) where
  pub slice_at : slice_bytes (concat ps) start bytes ≡ prefixed (piece k ps)
  unfolding slice_bytes
  slice_at =
      ap (λ n. prefixed (take_chars n (drop_chars (2 + start * 2) (concat ps)))) (sym wide)
      ∙ ap (λ n. prefixed (take_chars (width k ws) (drop_chars n (concat ps)))) (sym from)
      ∙ ap prefixed (piece_at k ws ps fits inside)

  pub number_at :
      (n : ℕ)
      → piece k ps ≡ hex_of (bytes * 2) n
      → n < 16 ^ (bytes * 2)
      → read_number (concat ps) start bytes ≡ n
  unfolding read_number
  number_at n is h = ap big_int slice_at ∙ ap (value_from 0) is ∙ value-hex_of (bytes * 2) n h

-- An address stands in the last 40 of the 64 digits of its piece.
abbrev pub padding : String
padding = "000000000000000000000000"

pub address_at :
    (env : Runtime) (ws : List ℕ) (ps : List String) (k start : ℕ) (address : String)
    → Fits ws ps
    → k < count_of ws
    → width k ws ≡ 64
    → offset k ws ≡ 2 + start * 2
    → piece k ps ≡ append padding address
    → length address ≡ 40
    → read_address env (concat ps) start ≡ env.get_address (prefixed address)
unfolding read_address
address_at env ws ps k start address fits inside wide from is h =
    ap (λ s. env.get_address (prefixed (last_40 s)))
      (slice_at ws ps fits k start 32 inside wide from ∙ ap prefixed is)
    ∙ ap (λ s. env.get_address (prefixed s)) (last_40-append (prefixed padding) address h)
