-- ===== src/Webhooks/Outbox/Range.antt =====
-- The range query on paths, and `truncateWebhookBody`, of webhooks/outbox.ts.
use agent_fs.Prelude.{
  ℕ, zero, suc, ◌≤◌, ◌≡◌, refl, ap, Bool, true, false, ◌&&◌, none, [], ◌∷◌, ◌++◌, Text, text, leb,
  length, take, get_elem?, if◌then◌else◌, arith, starts_with, Bool-cases, inl, inr, leb→le, ◌<◌,
}
use agent_fs.Paths.{drop_last}
use agent_fs.Webhooks.Outbox.{
  text_lt, text_ge, in_range, truncate_webhook_body, is_high_surrogate, body_max_chars,
}

drop_last-append : (p : Text) (c : ℕ) → drop_last (p ++ c ∷ []) ≡ p
unfolding drop_last
drop_last-append [] c = refl
drop_last-append (a ∷ []) c = refl
drop_last-append (a ∷ b ∷ p) c = ap (λ q. a ∷ q) (drop_last-append (b ∷ p) c)

between :
    (path q : Text)
    → (text_ge path (q ++ text "/") && text_lt path (q ++ text "0"))
      ≡ starts_with path (q ++ text "/")
unfolding text_lt starts_with
between [] [] = refl
between [] (c ∷ q) = refl
between (a ∷ []) [] = ground arith
between (a ∷ b ∷ path) [] = ground arith
between (a ∷ path) (c ∷ q) = ground (arith, between path q)

-- For a prefix that ends in a slash, the range test of the query holds of a path exactly when the
-- path starts with the prefix.
pub in_range_iff :
    (path q : Text) → in_range path (q ++ text "/") ≡ starts_with path (q ++ text "/")
in_range_iff path q = rw (drop_last-append q 47) (between path q)

length-take_short : (n : ℕ) (s : Text) → n ≤ length s → length (take n s) ≡ n
length-take_short zero s h = refl
length-take_short (suc n) [] h = omega arith
length-take_short (suc n) (a ∷ s) h = omega (arith, length-take_short n s)

starts_with-take : (n : ℕ) (s : Text) → starts_with s (take n s) ≡ true
unfolding starts_with
starts_with-take zero [] = refl
starts_with-take zero (a ∷ s) = refl
starts_with-take (suc n) [] = refl
starts_with-take (suc n) (a ∷ s) = ground (arith, starts_with-take n s)

get_elem?-take : (n : ℕ) (s : Text) → get_elem? (take (suc n) s) n ≡ get_elem? s n
get_elem?-take n [] = refl
get_elem?-take zero (a ∷ s) = refl
get_elem?-take (suc n) (a ∷ s) = get_elem?-take n s

get_elem?-taken : (n : ℕ) (s : Text) → get_elem? (take n s) n ≡ none
get_elem?-taken zero s = refl
get_elem?-taken (suc n) [] = refl
get_elem?-taken (suc n) (a ∷ s) = get_elem?-taken n s

-- What `truncateWebhookBody` may return for a body.
abbrev pub IsTruncated : Text → Text × Bool → Type 0
IsTruncated body (out, false) = (out ≡ body) × (length body ≤ body_max_chars)
IsTruncated body (out, true) =
    (body_max_chars < length body)
    × (starts_with body out ≡ true)
    × (7999 ≤ length out)
    × (length out ≤ body_max_chars)
    × (is_high_surrogate (get_elem? out 7999) ≡ false)

cut :
    (body : Text)
    → body_max_chars < length body
    → IsTruncated body (
        if is_high_surrogate (get_elem? body 7999)
        then (take 7999 body, true)
        else (take body_max_chars body, true))
cut body long = elim (Bool-cases (is_high_surrogate (get_elem? body 7999))) [
  | inl high ↦ rw high (
    long,
    starts_with-take 7999 body,
    omega (arith, length-take_short 7999 body (omega arith)),
    omega (arith, length-take_short 7999 body (omega arith)),
    rw (get_elem?-taken 7999 body) refl,
  )
  | inr low ↦ rw low (
    long,
    starts_with-take body_max_chars body,
    omega (arith, length-take_short body_max_chars body (omega arith)),
    omega (arith, length-take_short body_max_chars body (omega arith)),
    rw (get_elem?-take 7999 body) low,
  )
]

-- A body of at most 8000 code units is kept. A longer one is cut to a prefix of 7999 or 8000 code
-- units whose 8000th, if there is one, is no high surrogate.
pub truncate_webhook_body-IsTruncated :
    (body : Text) → IsTruncated body (truncate_webhook_body body)
unfolding truncate_webhook_body
truncate_webhook_body-IsTruncated body = elim (Bool-cases (leb (length body) body_max_chars)) [
  | inl short ↦ rw short (refl, leb→le (length body) body_max_chars short)
  | inr long ↦ rw long (cut body (ground arith))
]
