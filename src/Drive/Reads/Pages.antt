-- ===== src/Drive/Reads/Pages.antt =====
-- Lines and pages of a text.
use agent_fs.Prelude.{
  ℕ, zero, suc, ◌+◌, ◌-◌, ◌<◌, ◌≤◌, ◌≡◌, refl, sym, ap, ◌∙◌, true, false, List, [], ◌∷◌, ◌++◌,
  append_assoc, Option, none, some, Text, ◌==◌, length, ltb, take, drop, arith, Bool-cases, inl,
  inr,
}
use agent_fs.Errors.{ok}
use agent_fs.Paths.{split_on, push, normalize_path}
use agent_fs.Paths.Segments.{split_on-cons, head_of, tail_of}
use agent_fs.Storage.{Platform, StorageAdapter, GetObjectResult}
use agent_fs.Mime.{detect_mime_type, decode_indexable_text}
use agent_fs.Files.{OpContext}
use agent_fs.Drive.{Drive, key_of, or_else}
use agent_fs.Drive.Reads.{
  CatResult, lines_of, join, page, last_page, cat, tail, decoded, or_default,
}

join-push :
    (c : ℕ) (line : Text) (lines : List Text) → join ((c ∷ line) ∷ lines) ≡ c ∷ join (line ∷ lines)
unfolding join
join-push c line [] = refl
join-push c line (next ∷ lines) = refl

join-empty_first :
    (lines : List Text)
    → lines ≡ head_of lines ∷ tail_of lines
    → join ([] ∷ lines) ≡ 10 ∷ join lines
unfolding join
join-empty_first [] h = ground arith
join-empty_first (line ∷ lines) h = refl

join-push_first :
    (c : ℕ) (lines : List Text)
    → lines ≡ head_of lines ∷ tail_of lines
    → join (push c lines) ≡ c ∷ join lines
join-push_first c [] h = ground arith
join-push_first c (line ∷ lines) h = join-push c line lines

-- Splitting into lines loses nothing.
pub join-lines_of : (s : Text) → join (lines_of s) ≡ s
unfolding split_on
join-lines_of [] = unfold join in refl
join-lines_of (c ∷ s) = elim (Bool-cases (c == 10)) [
  | inl newline ↦ rw newline (
      join-empty_first (lines_of s) (split_on-cons (λ d. d == 10) s)
      ∙ ap (λ t. 10 ∷ t) (join-lines_of s)
      ∙ ground arith)
  | inr other ↦ rw other (
      join-push_first c (lines_of s) (split_on-cons (λ d. d == 10) s)
      ∙ ap (λ t. c ∷ t) (join-lines_of s))
]

-- Two groups of lines, joined with one newline between them.
join-append :
    (x : Text) (xs : List Text) (y : Text) (ys : List Text)
    → join ((x ∷ xs) ++ (y ∷ ys)) ≡ join (x ∷ xs) ++ (10 ∷ join (y ∷ ys))
unfolding join
join-append x [] y ys = refl
join-append x (x' ∷ xs) y ys =
    ap (λ t. x ++ (10 ∷ t)) (join-append x' xs y ys)
    ∙ sym (append_assoc x (10 ∷ join (x' ∷ xs)) (10 ∷ join (y ∷ ys)))

take-drop : (k : ℕ) (lines : List Text) → take k lines ++ drop k lines ≡ lines
take-drop zero lines = refl
take-drop (suc k) [] = refl
take-drop (suc k) (x ∷ lines) = ap (λ r. x ∷ r) (take-drop k lines)

drop_nonempty :
    (k : ℕ) (lines : List Text)
    → k < length lines
    → (y : Text) × (ys : List Text) × (drop k lines ≡ y ∷ ys)
drop_nonempty k [] h = ground arith
drop_nonempty zero (x ∷ lines) h = (x, lines, refl)
drop_nonempty (suc k) (x ∷ lines) h = drop_nonempty k lines (omega arith)

-- The first lines and the rest make the whole text.
pub page-last_page :
    (lines : List Text) (k : ℕ)
    → 0 < k
    → k < length lines
    → join (take k lines) ++ (10 ∷ join (drop k lines)) ≡ join lines
page-last_page [] k low high = ground arith
page-last_page (x ∷ lines) zero low high = ground arith
page-last_page (x ∷ lines) (suc k) low high =
    let (y, ys, rest) = drop_nonempty k lines (omega arith) in
    rw rest (
      sym (join-append x (take k lines) y ys)
      ∙ ap join
          (ap (λ r. x ∷ (take k lines ++ r)) (sym rest) ∙ ap (λ r. x ∷ r) (take-drop k lines)))

take-all : (n : ℕ) (lines : List Text) → length lines ≤ n → take n lines ≡ lines
take-all zero [] h = refl
take-all zero (x ∷ lines) h = ground arith
take-all (suc n) [] h = refl
take-all (suc n) (x ∷ lines) h = ap (λ r. x ∷ r) (take-all n lines (omega arith))

module _ (A : StorageAdapter) (P : Platform) (d : Drive A) (ctx : OpContext) (path : Text)
    (o : GetObjectResult) (t : Text) where
  cat-page :
      (offset limit : Option ℕ)
      → A.get_object d.store (key_of ctx path) none ≡ ok o
      → decode_indexable_text P o.body
          (or_else o.content_type (detect_mime_type (normalize_path path)))
        ≡ ok (some t)
      → cat A P d ctx path offset limit
        ≡ ok (page (lines_of t) (or_default offset 0) (or_default limit 200))
  unfolding cat
  cat-page offset limit got readable = rw got (rw (readable, decoded) refl)

  tail-page :
      (lines : Option ℕ)
      → A.get_object d.store (key_of ctx path) none ≡ ok o
      → P.decode o.body ≡ t
      → tail A P d ctx path lines ≡ ok (last_page (lines_of t) (or_default lines 20))
  unfolding tail
  tail-page lines got readable = rw got (rw readable refl)

  whole_page :
      (limit : ℕ)
      → length (lines_of t) ≤ limit
      → page (lines_of t) 0 limit
        ≡ record { content = t; total_lines = length (lines_of t); truncated = false }
  whole_page limit all =
      let last : ltb (0 + limit) (length (lines_of t)) ≡ false = ground arith in
      rw (take-all limit (lines_of t) all, join-lines_of t, last) refl

  -- A file that reads as the text t, both for cat and for the decoder of tail: a cat that asks for at
  -- least as many lines as t has gives t back whole, not truncated. For any k between 0 and the
  -- number of lines, both left out, a cat of the first k lines and a tail of the others give two
  -- texts that, with a newline between them, are t, and both say that they are truncated.
  pub cat_and_tail :
      (limit k : ℕ)
      → A.get_object d.store (key_of ctx path) none ≡ ok o
      → decode_indexable_text P o.body
          (or_else o.content_type (detect_mime_type (normalize_path path)))
        ≡ ok (some t)
      → P.decode o.body ≡ t
      → length (lines_of t) ≤ limit
      → 0 < k
      → k < length (lines_of t)
      → (cat A P d ctx path none (some limit)
          ≡ ok (record { content = t; total_lines = length (lines_of t); truncated = false }))
        × ((front back : CatResult) × (cat A P d ctx path none (some k) ≡ ok front)
            × (tail A P d ctx path (some (length (lines_of t) - k)) ≡ ok back)
            × (front.content ++ (10 ∷ back.content) ≡ t)
            × (front.truncated ≡ true)
            × (back.truncated ≡ true))
  cat_and_tail limit k got readable same all low high =
      let back : length (lines_of t) - (length (lines_of t) - k) ≡ k = omega arith in
      (
        cat-page none (some limit) got readable ∙ ap ok (whole_page limit all),
        (
          page (lines_of t) 0 k,
          last_page (lines_of t) (length (lines_of t) - k),
          cat-page none (some k) got readable,
          tail-page (some (length (lines_of t) - k)) got same,
          rw back (page-last_page (lines_of t) k low high ∙ join-lines_of t),
          ground arith,
          ground arith,
        ),
      )
