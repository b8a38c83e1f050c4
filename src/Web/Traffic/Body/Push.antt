-- ===== src/Web/Traffic/Body/Push.antt =====
-- src/web/traffic.rs (Captured::push): what is kept of a body that comes in chunks.
use fghj.Prelude.{
  ℕ, zero, suc, ◌-◌, false, List, [], ◌∷◌, ◌++◌, ◌≡◌, length, length-append, take, ltb,
  if◌then◌else◌, arith, refl, sym, ap, ◌∙◌,
}
use mathlib.Core.Path.{subst}
use mathlib.Core.List.{append_assoc, append-nil}
use fghj.Web.Traffic.Body.{Captured, body_cap, is_dropped, push, push_all}

module _ {ℓ} {A : Type ℓ} where
  take-append :
      (n : ℕ) (xs ys : List A) → take n (xs ++ ys) ≡ take n xs ++ take (n - length (take n xs)) ys
  take-append zero xs ys = refl
  take-append (suc n) [] ys = ap (λ (m : ℕ). take m ys) (le_zero (suc n))
    where
      le_zero : (m : ℕ) → m ≡ m - 0
      le_zero m = omega arith
  take-append (suc n) (x ∷ xs) ys =
      ap (λ l. x ∷ l) (take-append n xs ys)
      ∙ ap (λ (m : ℕ). x ∷ take n xs ++ take m ys) (less n (length (take n xs)))
    where
      less : (a b : ℕ) → a - b ≡ suc a - suc b
      less a b = omega arith

  length-take :
      (n : ℕ) (xs : List A) → length (take n xs) ≡ (if ltb n (length xs) then n else length xs)
  length-take zero xs = ground arith
  length-take (suc n) [] = ground arith
  length-take (suc n) (x ∷ xs) = ground (arith, length-take n xs)

-- The bytes that went over the wire.
abbrev pub concat : List (List ℕ) → List ℕ
concat [] = []
concat (chunk ∷ chunks) = chunk ++ concat chunks

-- What a body that is kept holds once the bytes went by.
pub record Holds (wire : List ℕ) (c : Captured) : Type 0 where
  pub kept : is_dropped c.keep ≡ false
  pub bytes : c.bytes ≡ take body_cap wire
  pub size : c.size ≡ length wire
  pub truncated : c.truncated ≡ ltb body_cap (length wire)

push-Holds :
    (wire chunk : List ℕ) (c : Captured) → Holds wire c → Holds (wire ++ chunk) (push chunk c)
unfolding push
push-Holds wire chunk c h =
    rw (h.kept, push, if◌then◌else◌)
      (record {
        kept = h.kept;
        bytes =
            ap (λ (l : List ℕ). l ++ take (body_cap - length l) chunk) h.bytes
            ∙ sym (take-append body_cap wire chunk);
        size = omega (arith, h.size, length-append wire chunk);
        truncated = ground (
          arith,
          length-append wire chunk,
          length-take body_cap wire,
          ap (λ (l : List ℕ). length l) h.bytes,
        );
      })

push_all-Holds :
    (chunks : List (List ℕ)) (wire : List ℕ) (c : Captured)
    → Holds wire c
    → Holds (wire ++ concat chunks) (push_all chunks c)
unfolding push_all
push_all-Holds [] wire c h = subst (λ l. Holds l c) (sym (append-nil wire)) h
push_all-Holds (chunk ∷ chunks) wire c h =
    subst (λ l. Holds l (push_all chunks (push chunk c))) (append_assoc wire chunk (concat chunks))
      (push_all-Holds chunks (wire ++ chunk) (push chunk c) (push-Holds wire chunk c h))

-- However a kept body is cut into chunks, it holds the first bytes that went over the wire, up to
-- the cap; its size is that of all of them, and it counts as truncated just past the cap.
pub push_all_lem :
    (chunks : List (List ℕ)) (c : Captured)
    → is_dropped c.keep ≡ false
    → c.bytes ≡ []
    → c.size ≡ 0
    → c.truncated ≡ false
    → Holds (concat chunks) (push_all chunks c)
push_all_lem chunks c kept bytes size truncated = push_all-Holds chunks [] c (record {
  kept = kept;
  bytes = bytes ∙ sym (take_nothing body_cap);
  size = size;
  truncated = ground arith;
})
  where
    take_nothing : (n : ℕ) → take {A = ℕ} n [] ≡ []
    take_nothing zero = refl
    take_nothing (suc n) = refl
