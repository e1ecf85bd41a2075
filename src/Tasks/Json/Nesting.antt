-- ===== src/Tasks/Json/Nesting.antt =====
-- What `_json_nesting_depth` of acgps/workflow_store.py measures: the depth of a bracketed text.
use Prim.Native.Char.{Char, code}
use Prim.Native.String as S
use acgps_public.Prelude.{
  ◌≡◌, refl, ap, ◌∙◌, ◌⊎◌, inl, inr, ℕ, ◌+◌, ◌-◌, ◌≤◌, String, Bool, true, false, not, nat_eq, ltb,
  if◌then◌else◌, arith,
}
use acgps_public.Tasks.Json.{Scan, scan_char, scan_text, json_nesting_depth}

-- The code of a quotation mark is 34, of a backslash 92, of `[` and `]` 91 and 93, and of `{` and `}`
-- 123 and 125.
abbrev pub IsOpening : Char → Type 0
IsOpening c = (code c ≡ 91) ⊎ (code c ≡ 123)

abbrev pub IsClosing : Char → Type 0
IsClosing c = (code c ≡ 93) ⊎ (code c ≡ 125)

-- The rest of a quoted text: it ends with a quotation mark, and a backslash takes a character along.
pub data Quoted : Type 0 where
  closed : (q : Char) → code q ≡ 34 → Quoted
  inside : (c : Char) → nat_eq (code c) 34 ≡ false → nat_eq (code c) 92 ≡ false → Quoted → Quoted
  taken : (b c : Char) → code b ≡ 92 → Quoted → Quoted

-- A text as a sequence of other characters, quoted texts, and blocks in brackets.
pub data Doc : Type 0 where
  empty : Doc
  other :
      (c : Char)
      → nat_eq (code c) 34 ≡ false
      → (nat_eq (code c) 91 ≡ false) × (nat_eq (code c) 123 ≡ false)
      → (nat_eq (code c) 93 ≡ false) × (nat_eq (code c) 125 ≡ false)
      → Doc
      → Doc
  quoted : (q : Char) → code q ≡ 34 → Quoted → Doc → Doc
  block : (o c : Char) → IsOpening o → IsClosing c → Doc → Doc → Doc

-- The characters of a quoted text, and of a document, before the rest of a text.
unfoldable pub write_quoted : Quoted → String → String
write_quoted (closed q h) rest = S.◌∷◌ q rest
write_quoted (inside c p h body) rest = S.◌∷◌ c (write_quoted body rest)
write_quoted (taken b c h body) rest = S.◌∷◌ b (S.◌∷◌ c (write_quoted body rest))

unfoldable pub write : Doc → String → String
unfolding write_quoted
write empty rest = rest
write (other c p q h d) rest = S.◌∷◌ c (write d rest)
write (quoted q h body d) rest = S.◌∷◌ q (write_quoted body (write d rest))
write (block o c p q content d) rest = S.◌∷◌ o (write content (S.◌∷◌ c (write d rest)))

abbrev higher : ℕ → ℕ → ℕ
higher m n = if ltb m n then n else m

-- The greatest number of blocks around one place of a document.
unfoldable pub depth : Doc → ℕ
depth empty = 0
depth (other c p q h d) = depth d
depth (quoted q h body d) = depth d
depth (block o c p q content d) = higher (depth content + 1) (depth d)

abbrev at : ℕ → ℕ → Bool → Scan
at n m quoting = record { depth = n; maximum = m; in_string = quoting; escaped = false }

scan_quote :
    (q : Char) (n m : ℕ) (b : Bool) → code q ≡ 34 → scan_char (code q) (at n m b) ≡ at n m (not b)
unfolding scan_char
scan_quote q n m true h = rw h refl
scan_quote q n m false h = rw h refl

scan_inside :
    (c : Char) (n m : ℕ)
    → nat_eq (code c) 34 ≡ false
    → nat_eq (code c) 92 ≡ false
    → scan_char (code c) (at n m true) ≡ at n m true
unfolding scan_char
scan_inside c n m p q = rw (p, q) refl

scan_taken :
    (b c : Char) (n m : ℕ)
    → code b ≡ 92
    → scan_char (code c) (scan_char (code b) (at n m true)) ≡ at n m true
unfolding scan_char
scan_taken b c n m h = rw h refl

scan-quoted :
    (body : Quoted) (rest : String) (n m : ℕ)
    → scan_text (write_quoted body rest) (at n m true) ≡ scan_text rest (at n m false)
unfolding scan_text write_quoted
scan-quoted (closed q h) rest n m = ap (scan_text rest) (scan_quote q n m true h)
scan-quoted (inside c p h body) rest n m =
    ap (scan_text (write_quoted body rest)) (scan_inside c n m p h) ∙ scan-quoted body rest n m
scan-quoted (taken b c h body) rest n m =
    ap (scan_text (write_quoted body rest)) (scan_taken b c n m h) ∙ scan-quoted body rest n m

scan_open :
    (o : Char) (n m : ℕ)
    → IsOpening o
    → scan_char (code o) (at n m false) ≡ at (n + 1) (higher m (n + 1)) false
unfolding scan_char
scan_open o n m (inl h) = rw h refl
scan_open o n m (inr h) = rw h refl

scan_close :
    (c : Char) (n m : ℕ) → IsClosing c → scan_char (code c) (at (n + 1) m false) ≡ at n m false
unfolding scan_char
scan_close c n m (inl h) = rw h (ap (λ k. at k m false) (back n))
  where
    back : (k : ℕ) → (k + 1) - 1 ≡ k
    back k = omega arith
scan_close c n m (inr h) = rw h (ap (λ k. at k m false) (back n))
  where
    back : (k : ℕ) → (k + 1) - 1 ≡ k
    back k = omega arith

scan_other :
    (c : Char) (n m : ℕ)
    → nat_eq (code c) 34 ≡ false
    → (nat_eq (code c) 91 ≡ false) × (nat_eq (code c) 123 ≡ false)
    → (nat_eq (code c) 93 ≡ false) × (nat_eq (code c) 125 ≡ false)
    → scan_char (code c) (at n m false) ≡ at n m false
unfolding scan_char
scan_other c n m p (a, b) (d, e) = rw (p, a, b, d, e) refl

highest_around :
    (n m a b : ℕ)
    → higher (higher (higher m (n + 1)) ((n + 1) + a)) (n + b) ≡ higher m (n + higher (a + 1) b)
highest_around n m a b = ground arith

scan-write :
    (d : Doc) (rest : String) (n m : ℕ)
    → n ≤ m
    → scan_text (write d rest) (at n m false) ≡ scan_text rest (at n (higher m (n + depth d)) false)
unfolding scan_text write depth
scan-write empty rest n m le = ap (λ k. scan_text rest (at n k false)) (same n m le)
  where
    same : (n m : ℕ) → n ≤ m → m ≡ higher m (n + 0)
    same n m le = ground arith
scan-write (other c p q h d) rest n m le =
    ap (scan_text (write d rest)) (scan_other c n m p q h) ∙ scan-write d rest n m le
scan-write (quoted q h body d) rest n m le =
    ap (scan_text (write_quoted body (write d rest))) (scan_quote q n m false h)
    ∙ scan-quoted body (write d rest) n m
    ∙ scan-write d rest n m le
scan-write (block o c p q content d) rest n m le =
    let a = depth content in
    let top = higher m (n + 1) in
    let inner = higher top ((n + 1) + a) in
    ap (scan_text (write content (S.◌∷◌ c (write d rest)))) (scan_open o n m p)
    ∙ scan-write content (S.◌∷◌ c (write d rest)) (n + 1) top (reached n m)
    ∙ ap (scan_text (write d rest)) (scan_close c n inner q)
    ∙ scan-write d rest n inner (above n m a le)
    ∙ ap (λ k. scan_text rest (at n k false)) (highest_around n m a (depth d))
  where
    reached : (n m : ℕ) → n + 1 ≤ higher m (n + 1)
    reached n m = ground arith

    above : (n m a : ℕ) → n ≤ m → n ≤ higher (higher m (n + 1)) ((n + 1) + a)
    above n m a le = ground arith

-- The nesting depth that is measured in a text is the depth of the document that it is written from.
pub json_nesting_depth-write : (d : Doc) → json_nesting_depth (write d S.[]) ≡ depth d
unfolding json_nesting_depth scan_text
json_nesting_depth-write d =
    ap (λ (s : Scan). s.maximum) (scan-write d S.[] 0 0 (omega arith)) ∙ highest (depth d)
  where
    highest : (k : ℕ) → higher 0 (0 + k) ≡ k
    highest k = ground arith
