-- ===== src/Mpsc/Threads.antt =====
-- libx/x/base/mpsc.c: one producer moves, the others stay.
use x.Base.{ℕ, ◌≢◌, ◌≡◌, refl, sym, ◌⊎◌, subst, ap, ◌∙◌, inl, inr, ◌==◌, Bool-cases, arith}
use x.Mpsc.{Producer, idle, linking, update, node_of}
use x.Mpsc.Chain.{Owed}

pub update-at : {A : Type 0} (pc : ℕ → A) (i : ℕ) (p : A) → update pc i p i ≡ p
update-at pc i p = ground arith

pub update-else : {A : Type 0} (pc : ℕ → A) (i j : ℕ) (p : A) → i ≢ j → update pc i p j ≡ pc j
update-else pc i j p ne = ground arith

-- What another producer is owed stays owed.
pub Owed-update :
    (pc : ℕ → Producer) (i : ℕ) (p : Producer) (b a : ℕ)
    → pc i ≢ linking b a
    → Owed pc b a
    → Owed (update pc i p) b a
Owed-update pc i p b a ne (j, e) = (j, update-else pc i j p (λ same. ne (ap pc same ∙ e)) ∙ e)

-- A property of all threads, when one moves.
pub each :
    (P : Producer → Type 0) (pc : ℕ → Producer) (i : ℕ) (p : Producer)
    → P p
    → ((j : ℕ) → i ≢ j → P (pc j))
    → (j : ℕ) → P (update pc i p j)
each P pc i p here there j = elim (Bool-cases (i == j)) as (λ _. P (update pc i p j)) [
  | inl e ↦ subst P (ground arith) here
  | inr e ↦ subst P (ground arith) (there j (λ q. ground arith))
]

pub update-cases :
    (pc : ℕ → Producer) (i j : ℕ) (p : Producer)
    → ((i ≡ j) × (update pc i p j ≡ p)) ⊎ ((i ≢ j) × (update pc i p j ≡ pc j))
update-cases pc i j p = elim (Bool-cases (i == j)) [
  | inl e ↦ inl (ground arith, ground arith)
  | inr e ↦ inr (λ q. ground arith, ground arith)
]

-- A producer keeps its node, or drops it.
pub own-update :
    (pc : ℕ → Producer) (i : ℕ) (p : Producer)
    → ((i j : ℕ) → node_of (pc i) ≢ 0 → node_of (pc i) ≡ node_of (pc j) → i ≡ j)
    → (node_of p ≢ 0 → (j : ℕ) → i ≢ j → node_of p ≢ node_of (pc j))
    → (j k : ℕ) → node_of (update pc i p j) ≢ 0
    → node_of (update pc i p j) ≡ node_of (update pc i p k)
    → j ≡ k
own-update pc i p own fresh j k ne e = elim (update-cases pc i j p) [
  | inl (ij, ej) ↦ elim (update-cases pc i k p) [
    | inl (ik, ek) ↦ sym ij ∙ ik
    | inr (ik, ek) ↦
        absurd (fresh (λ z. ne (ap node_of ej ∙ z)) k ik (ap node_of (sym ej) ∙ e ∙ ap node_of ek))
  ]
  | inr (ij, ej) ↦ elim (update-cases pc i k p) [
    | inl (ik, ek) ↦
        absurd (
          fresh (λ z. ne (e ∙ ap node_of ek ∙ z)) j ij
            (ap node_of (sym ek) ∙ sym e ∙ ap node_of ej))
    | inr (ik, ek) ↦ own j k (λ z. ne (ap node_of ej ∙ z)) (ap node_of (sym ej) ∙ e ∙ ap node_of ek)
  ]
]

pub own-keep :
    (pc : ℕ → Producer) (i : ℕ) (p q : Producer)
    → pc i ≡ q
    → node_of p ≡ node_of q
    → ((i j : ℕ) → node_of (pc i) ≢ 0 → node_of (pc i) ≡ node_of (pc j) → i ≡ j)
    → (j k : ℕ) → node_of (update pc i p j) ≢ 0
    → node_of (update pc i p j) ≡ node_of (update pc i p k)
    → j ≡ k
own-keep pc i p q at e own =
    let same : node_of p ≡ node_of (pc i) = e ∙ ap node_of (sym at) in
    own-update pc i p own (λ nz j ne f. ne (own i j (λ z. nz (same ∙ z)) (sym same ∙ f)))

pub own-drop :
    (pc : ℕ → Producer) (i : ℕ)
    → ((i j : ℕ) → node_of (pc i) ≢ 0 → node_of (pc i) ≡ node_of (pc j) → i ≡ j)
    → (j k : ℕ) → node_of (update pc i idle j) ≢ 0
    → node_of (update pc i idle j) ≡ node_of (update pc i idle k)
    → j ≡ k
own-drop pc i own = own-update pc i idle own (λ nz. absurd (nz refl))
