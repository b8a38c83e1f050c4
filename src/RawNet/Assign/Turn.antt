-- ===== src/RawNet/Assign/Turn.antt =====
-- The order in which `assign` goes through the endpoints: a permutation of them.
use mathlib.Core.List.{Memᴰ, Permᴰ}
use mathlib.Core.List.Permᴰ
use fghj.Prelude.{
  ℕ, ◌+◌, String, Bool, not, List, [], ◌∷◌, ◌++◌, ◌≡◌, ◌≢◌, refl, sym, ap, ◌∙◌, arith, inl, inr,
  Bool-cases, filter, length,
}
use fghj.Prelude.Sorting.{str_le, mem_of_perm}
use fghj.Prelude.BTreeMap.{BTreeMap}
use fghj.State.Query.{RawEndpoint}
use fghj.RawNet.Assign.{ports_of, insert_by_name, sort_by_name, in_turn, is_incumbent}

-- Each name once.
unfoldable pub IsDistinct : List RawEndpoint → Type 0
IsDistinct [] = Unit
IsDistinct (e ∷ l) = ((x : RawEndpoint) → Memᴰ x l → x.raw_domain ≢ e.raw_domain) × IsDistinct l

unfoldable pub port_count : List RawEndpoint → ℕ
port_count [] = 0
port_count (e ∷ l) = length (ports_of e) + port_count l

pub IsDistinct-of_perm : {l k : List RawEndpoint} → Permᴰ l k → IsDistinct l → IsDistinct k
unfolding IsDistinct
IsDistinct-of_perm Permᴰ.nil d = d
IsDistinct-of_perm (Permᴰ.cons e p) (d, ds) = (
  (λ x m q.
      d x (mem_of_perm x (Permᴰ.symm p) m) (q ∙ ap (λ (z : RawEndpoint). z.raw_domain) (sym e))),
  IsDistinct-of_perm p ds,
)
IsDistinct-of_perm (Permᴰ.swap {a = a} {b = b} e f) (d, (d', ds)) = (
  λ x m q. elim m [
    | Memᴰ.head k ↦ d b (Memᴰ.head refl) (ap name f ∙ sym q ∙ ap name (k ∙ sym e))
    | Memᴰ.tail k ↦ d' x k (q ∙ ap name (sym f))
  ],
  ((λ x m q. d x (Memᴰ.tail m) (q ∙ ap name (sym e))), ds),
)
  where
    name : RawEndpoint → String
    name z = z.raw_domain
IsDistinct-of_perm (Permᴰ.trans p q) d = IsDistinct-of_perm q (IsDistinct-of_perm p d)

pub port_count_of_perm : {l k : List RawEndpoint} → Permᴰ l k → port_count l ≡ port_count k
unfolding port_count
port_count_of_perm Permᴰ.nil = refl
port_count_of_perm (Permᴰ.cons e p) =
    omega (arith, port_count_of_perm p, ap (λ z. length (ports_of z)) e)
port_count_of_perm (Permᴰ.swap e f) =
    omega (arith, ap (λ z. length (ports_of z)) e, ap (λ z. length (ports_of z)) f)
port_count_of_perm (Permᴰ.trans p q) = port_count_of_perm p ∙ port_count_of_perm q

insert_by_name-perm : (e : RawEndpoint) (l : List RawEndpoint) → Permᴰ (insert_by_name e l) (e ∷ l)
unfolding insert_by_name
insert_by_name-perm e [] = Permᴰ.refl (e ∷ [])
insert_by_name-perm e (x ∷ l) = elim (Bool-cases (str_le e.raw_domain x.raw_domain)) [
  | inl f ↦ rw (f, insert_by_name) (Permᴰ.refl (e ∷ x ∷ l))
  | inr f ↦
      rw (f, insert_by_name)
        (Permᴰ.trans (Permᴰ.cons refl (insert_by_name-perm e l)) (Permᴰ.swap refl refl))
]

pub sort_by_name-perm : (l : List RawEndpoint) → Permᴰ (sort_by_name l) l
unfolding sort_by_name
sort_by_name-perm [] = Permᴰ.nil
sort_by_name-perm (e ∷ l) =
    Permᴰ.trans (insert_by_name-perm e (sort_by_name l)) (Permᴰ.cons refl (sort_by_name-perm l))

split-perm :
    (p : RawEndpoint → Bool) (l : List RawEndpoint)
    → Permᴰ (filter p l ++ filter (λ e. not (p e)) l) l
split-perm p [] = Permᴰ.nil
split-perm p (e ∷ l) = elim (Bool-cases (p e)) [
  | inl f ↦ rw f (Permᴰ.cons refl (split-perm p l))
  | inr f ↦ rw f (
      Permᴰ.trans (Permᴰ.middle e (filter p l) (filter (λ e. not (p e)) l))
        (Permᴰ.cons refl (split-perm p l)))
]

module _ (sha256_head : String → ℕ) (previous : BTreeMap ℕ) where
  pub in_turn-perm :
      (endpoints : List RawEndpoint) → Permᴰ (in_turn sha256_head previous endpoints) endpoints
  unfolding in_turn
  in_turn-perm endpoints =
      let old = filter (is_incumbent sha256_head previous) endpoints in
      let fresh = filter (λ e. not (is_incumbent sha256_head previous e)) endpoints in
      Permᴰ.trans
        (Permᴰ.trans (Permᴰ.append_right (sort_by_name fresh) (sort_by_name-perm old))
          (Permᴰ.append_left old (sort_by_name-perm fresh)))
        (split-perm (is_incumbent sha256_head previous) endpoints)
