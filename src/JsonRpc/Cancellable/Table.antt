-- ===== src/JsonRpc/Cancellable/Table.antt =====
-- The table of the requests in work, where each request has an id of its own: who is owed a reply.
use rockets.Prelude.{
  ℕ, ◌+◌, ◌≤◌, ◌≡◌, refl, ◌∙◌, inl, inr, true, Option, none, some, List, [], ◌∷◌, ◌++◌, ◌==◌, arith,
  if◌then◌else◌, Bool-cases,
}
use rockets.Prelude.Assoc.{Eq, find, put, erase, find-put, find-erase}
use rockets.Json.{JsonLib}
use rockets.JsonRpc.Cancellable.{Entry, Requests, Output, replies, cancels, CancelCallback}

-- How often a request was answered, counting a cancel function of the application that was called,
-- which calls its argument at most once.
unfoldable pub replied : {J K : Type 0} → ℕ → List (Output J ℕ K) → ℕ
replied p [] = 0
replied p (replies q j ∷ outs) = (if q == p then 1 else 0) + replied p outs
replied p (cancels k none j ∷ outs) = replied p outs
replied p (cancels k (some q) j ∷ outs) = (if q == p then 1 else 0) + replied p outs

pub replied-none : (J K : Type 0) (p : ℕ) → replied {J = J} {K = K} p [] ≡ 0
unfolding replied
replied-none J K p = refl

pub replied-append :
    {J K : Type 0} (p : ℕ) (xs ys : List (Output J ℕ K))
    → replied p (xs ++ ys) ≡ replied p xs + replied p ys
unfolding replied
replied-append p [] ys = omega arith
replied-append p (replies q j ∷ xs) ys = omega (arith, replied-append p xs ys)
replied-append p (cancels k none j ∷ xs) ys = replied-append p xs ys
replied-append p (cancels k (some q) j ∷ xs) ys = omega (arith, replied-append p xs ys)

pub replied-one :
    {J : Type 0} (K : Type 0) (q : ℕ) (j : J) (p : ℕ)
    → replied {K = K} p (replies q j ∷ []) ≡ (if q == p then 1 else 0)
unfolding replied
replied-one K q j p = omega arith

pub replied-cancel :
    {J K : Type 0} (q : ℕ) (k : K) (j : J) (p : ℕ)
    → replied p (cancels k (some q) j ∷ []) ≡ (if q == p then 1 else 0)
unfolding replied
replied-cancel q k j p = omega arith

abbrev pub owes : {K : Type 0} → ℕ → Option (Entry ℕ K) → ℕ
owes p none = 0
owes p (some (cancel, none)) = 0
owes p (some (cancel, some q)) = if q == p then 1 else 0

module _ (lib : JsonLib) ⦃e : Eq lib.Json⦄ {K : Type 0} (ids : ℕ → lib.Json) where
  open lib use {Json}

  -- Whether a request waits for its reply.
  abbrev pub waits : ℕ → Requests Json ℕ K → ℕ
  waits p s = owes p (find (ids p) s)

  -- Each entry is that of a request, under its id.
  abbrev pub IsTable : Requests Json ℕ K → Type 0
  IsTable s =
      (k : Json) (entry : Entry ℕ K)
      → find k s ≡ some entry
      → (p : ℕ) × (entry.1 ≡ some p) × (e.beq (ids p) k ≡ true)

  pub find_same : (a b : Json) (s : Requests Json ℕ K) → e.beq a b ≡ true → find a s ≡ find b s
  unfolding find
  find_same a b [] h = refl
  find_same a b ((j, v) ∷ s) h = ground (
    arith,
    e.beq_congr j a b,
    e.beq_congr j b a,
    e.beq_congr a b a,
    e.beq_self a,
    find_same a b s h,
  )

  pub erase-IsTable : (k : Json) (s : Requests Json ℕ K) → IsTable s → IsTable (erase k s)
  erase-IsTable k s v j entry f = elim (Bool-cases (e.beq k j)) [
    | inl same ↦ absurd (ground (arith, find-erase k j s))
    | inr other ↦ v j entry (ground (arith, find-erase k j s))
  ]

  pub put-IsTable :
      (q : ℕ) (cancel : CancelCallback K) (s : Requests Json ℕ K)
      → IsTable s
      → IsTable (put (ids q) (cancel, some q) s)
  put-IsTable q cancel s v j entry f = elim (Bool-cases (e.beq (ids q) j)) [
    | inl same ↦ (q, ground (arith, find-put (ids q) j (cancel, some q) s), same)
    | inr other ↦ v j entry (ground (arith, find-put (ids q) j (cancel, some q) s))
  ]

  module _ (distinct : (p q : ℕ) → e.beq (ids p) (ids q) ≡ true → p ≡ q) where
    -- A request that is put into the table, as new or with another way to cancel it.
    pub waits-put :
        (p q : ℕ) (cancel : CancelCallback K) (s : Requests Json ℕ K)
        → waits p (put (ids q) (cancel, some q) s) ≤ (if q == p then 1 else 0) + waits p s
    waits-put p q cancel s =
        ground (arith, find-put (ids q) (ids p) (cancel, some q) s, distinct q p)

    -- A request that is taken out of the table is owed a reply no more.
    pub waits-erase :
        (p q : ℕ) (k : Json) (entry : Entry ℕ K) (s : Requests Json ℕ K)
        → find k s ≡ some entry
        → entry.1 ≡ some q
        → e.beq (ids q) k ≡ true
        → (if q == p then 1 else 0) + waits p (erase k s) ≤ waits p s
    waits-erase p q k (cancel, some r) s there owner key = elim (Bool-cases (q == p)) [
      | inl same ↦
          let here : q ≡ p = ground arith in
          let found : find (ids p) s ≡ some (cancel, some r) =
            rw (← here) (find_same (ids q) k s key ∙ there) in
          ground (arith, find-erase k (ids p) s, e.beq_congr (ids q) k (ids q), e.beq_self (ids q))
      | inr other ↦ ground (arith, find-erase k (ids p) s)
    ]
    waits-erase p q k (cancel, none) s there owner key = absurd (ground arith)

    -- Another way to cancel a request in work.
    pub waits-set :
        (p q : ℕ) (cancel : CancelCallback K) (entry : Entry ℕ K) (s : Requests Json ℕ K)
        → find (ids q) s ≡ some entry
        → entry.1 ≡ some q
        → waits p (put (ids q) (cancel, some q) s) ≤ waits p s
    waits-set p q cancel (old, some r) s there owner = elim (Bool-cases (q == p)) [
      | inl same ↦
          let here : q ≡ p = ground arith in
          let found : find (ids p) s ≡ some (old, some r) = rw (← here) there in
          ground (arith, find-put (ids q) (ids p) (cancel, some q) s)
      | inr other ↦ ground (arith, find-put (ids q) (ids p) (cancel, some q) s, distinct q p)
    ]
    waits-set p q cancel (old, none) s there owner = absurd (ground arith)
