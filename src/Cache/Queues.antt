-- ===== src/Cache/Queues.antt =====
-- The priority queue of src/confab/CacheManager.hpp: what `pop` leaves of it.
use sclork_tools.Prelude.{
  ℕ, ◌+◌, ◌≤◌, Bytes, true, false, none, some, List, [], ◌∷◌, ◌≡◌, ◌≢◌, ◌⊎◌, inl, inr, refl, sym,
  arith, Bool-cases,
}
use sclork_tools.Asset.RoundTrip.{All}
use sclork_tools.Cache.TimeQueue.{TimePath, time_path_lt, pop, oldest_of}

pub All-map {ℓ κ μ} :
    {A : Type ℓ} {P : A → Type κ} {Q : A → Type μ} (f : (a : A) → P a → Q a) (xs : List A)
    → All P xs
    → All Q xs
All-map f [] h = tt
All-map f (x ∷ xs) h = (f x h.0, All-map f xs h.1)

pub All-zip {ℓ κ μ ν} :
    {A : Type ℓ} {P : A → Type κ} {Q : A → Type μ} {R : A → Type ν} (f : (a : A) → P a → Q a → R a)
    (xs : List A)
    → All P xs
    → All Q xs
    → All R xs
All-zip f [] h k = tt
All-zip f (x ∷ xs) h k = (f x h.0 k.0, All-zip f xs h.1 k.1)

-- The sum of a number over the elements.
abbrev pub total : (TimePath → ℕ) → List TimePath → ℕ
total f [] = 0
total f (x ∷ xs) = f x + total f xs

-- No element has this path.
abbrev pub Fresh : Bytes → List TimePath → Type 0
Fresh path = All (λ (x : TimePath). x.1 ≢ path)

-- Each path stands once in the queue.
abbrev pub Distinct : List TimePath → Type 0
Distinct [] = Unit
Distinct (x ∷ xs) = Fresh x.1 xs × Distinct xs

-- The greatest element and the others.
pub record Popped (queue : List TimePath) (top : TimePath) (rest : List TimePath) : Type 1 where
  pub every : (P : TimePath → Type 0) → All P queue → P top × All P rest
  pub back : (P : TimePath → Type 0) → P top → All P rest → All P queue
  pub sum : (f : TimePath → ℕ) → f top + total f rest ≡ total f queue
  pub once : Distinct queue → Distinct (top ∷ rest)
  pub latest : All (λ (x : TimePath). x.0 ≤ top.0) rest

lt_time : (x y : TimePath) → time_path_lt x y ≡ true → x.0 ≤ y.0
unfolding time_path_lt
lt_time x y h = ground arith

ge_time : (x y : TimePath) → time_path_lt x y ≡ false → y.0 ≤ x.0
unfolding time_path_lt
ge_time x y h = ground arith

pop_keep :
    (e g : TimePath) (xs rest : List TimePath)
    → Popped xs g rest
    → time_path_lt g e ≡ true
    → Popped (e ∷ xs) e (g ∷ rest)
pop_keep e g xs rest v h = record {
  every = λ P a. (a.0, v.every P a.1);
  back = λ P t r. (t, v.back P r.0 r.1);
  sum = λ f. omega (arith, v.sum f);
  once = λ d. (v.every (λ x. x.1 ≢ e.1) d.0, v.once d.1);
  latest = (lt_time g e h, All-map (λ x le. omega (arith, lt_time g e h)) rest v.latest);
}

pop_pass :
    (e g : TimePath) (xs rest : List TimePath)
    → Popped xs g rest
    → time_path_lt g e ≡ false
    → Popped (e ∷ xs) g (e ∷ rest)
pop_pass e g xs rest v h = record {
  every = λ P a. let (p, r) = v.every P a.1 in (p, (a.0, r));
  back = λ P t r. (r.0, v.back P t r.1);
  sum = λ f. omega (arith, v.sum f);
  once = λ d.
      let (p, r) = v.every (λ x. x.1 ≢ e.1) d.0 in
      let (f, o) = v.once d.1 in ((λ q. p (sym q), f), (r, o));
  latest = (ge_time g e h, v.latest);
}

pub pop-Popped : (e : TimePath) (xs : List TimePath) → Popped (e ∷ xs) (pop e xs).0 (pop e xs).1
unfolding pop
pop-Popped e [] = record {
  every = λ P a. a;
  back = λ P t r. (t, r);
  sum = λ f. refl;
  once = λ d. d;
  latest = tt;
}
pop-Popped e (x ∷ xs) = elim (Bool-cases (time_path_lt (pop x xs).0 e)) [
  | inl keep ↦ rw keep (pop_keep e _ (x ∷ xs) _ (pop-Popped x xs) keep)
  | inr pass ↦ rw pass (pop_pass e _ (x ∷ xs) _ (pop-Popped x xs) pass)
]

-- An empty queue has no top, and any other has its greatest element.
pub oldest_of-cases :
    (queue : List TimePath)
    → ((queue ≡ []) × (oldest_of queue ≡ none))
      ⊎ ((top : TimePath) × (rest : List TimePath) × (oldest_of queue ≡ some (top, rest))
          × Popped queue top rest)
unfolding oldest_of
oldest_of-cases [] = inl (refl, refl)
oldest_of-cases (e ∷ es) = inr ((pop e es).0, (pop e es).1, refl, pop-Popped e es)
