-- ===== src/Mpsc/Links.antt =====
-- libx/x/base/mpsc.c: the store of a link, in *head or in a node.
use x.Base.{
  ℕ, zero, suc, ◌≢◌, ◌≡◌, refl, sym, subst, ap, ◌∙◌, inl, inr, List, [], ◌∷◌, ◌++◌, All, ◌==◌,
  ==_iff, Bool-cases, false, arith,
}
use x.Mpsc.{
  Words, Consumer, resting, called, loaded, alone, spinning, advancing, resetting, done, Absent,
  update, link,
}
use x.Mpsc.Chain.{Nodup, Adjacent, Adjacent-second}
use x.Mpsc.Invariant.{front, cell, gone, cell-else, cell-head}

pub front_of :
    (c : Consumer) (queue : List ℕ) (n prev : ℕ)
    → Nodup (0 ∷ (gone c ++ queue))
    → Adjacent prev n (0 ∷ queue)
    → front c n ≡ n
unfolding front gone Nodup
front_of (resetting h) queue n prev (_, (a, _)) adj = elim (Bool-cases (n == h)) [
  | inl e ↦
      absurd (
        Adjacent-second prev n 0 queue adj (subst (λ x. Absent x queue) (sym ((==_iff n h).0 e)) a))
  | inr e ↦ ground arith
]
front_of resting queue n prev nd adj = refl
front_of called queue n prev nd adj = refl
front_of (loaded h) queue n prev nd adj = refl
front_of (alone h) queue n prev nd adj = refl
front_of (spinning h) queue n prev nd adj = refl
front_of (advancing h succ) queue n prev nd adj = refl
front_of (done r) queue n prev nd adj = refl

pub link-at :
    (m : Words) (c : Consumer) (n prev : ℕ) → front c n ≡ n → cell (link m n prev) c prev ≡ n
unfolding cell
link-at m c n zero e = e
link-at m c n (suc prev) e = ground arith

link-node :
    (m : Words) (n prev : ℕ) → link m n (suc prev) ≡ record m { next = update m.next (suc prev) n }
link-node m n prev = let e : (suc prev == 0) ≡ false = ground arith in rw e refl

pub link-else :
    (m : Words) (c : Consumer) (n prev x : ℕ) → x ≢ prev → cell (link m n prev) c x ≡ cell m c x
unfolding cell
link-else m c n zero x ne = cell-head m c n x ne
link-else m c n (suc prev) x ne =
    ap (λ (w : Words). cell w c x) (link-node m n prev) ∙ cell-else m c (suc prev) n x ne

pub link-tail : (m : Words) (n prev : ℕ) → (link m n prev).tail ≡ m.tail
link-tail m n zero = refl
link-tail m n (suc prev) = ap (λ (w : Words). w.tail) (link-node m n prev)

pub kept_of :
    (links links' : ℕ → ℕ) (xs : List ℕ)
    → ((x : ℕ) → links x ≢ 0 → links' x ≡ links x)
    → All (λ x. links x ≢ 0 → links' x ≡ links x) xs
kept_of links links' [] h = tt
kept_of links links' (x ∷ xs) h = (h x, kept_of links links' xs h)
