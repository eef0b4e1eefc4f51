-- ===== src/Base/Runtime.antt =====
-- What the program takes from packages that it does not contain, as interfaces: an operation each
-- for what the source calls, and the documented behaviour that it relies on.
use Prim.Native.Nat.{ℕ, zero, suc, ◌+◌, ◌≤◌, ◌<◌}
use mathlib.Core.Bool.{Bool, true, false}
use mathlib.Core.Path.{◌≡◌, refl}
use mathlib.Core.Logic.{◌≢◌}
use mathlib.Core.List.{List, [], ◌∷◌, ◌++◌}
use mathlib.Core.Option.{Option, none, some}
use native.Mathlib.Omega.{arith}
use geph.Base.Tests.{ltb, ◌==◌, if◌then◌else◌}
use geph.Base.Lists.{length}

-- A concurrent map such as `DashMap<u32, V>`, seen between its atomic operations.
pub record Table (V : Type 0) : Type 1 where
  pub Map : Type 0
  pub empty : Map
  pub get : ℕ → Map → Option V
  pub insert : ℕ → V → Map → Map
  pub remove : ℕ → Map → Map
  pub get-empty : (k : ℕ) → get k empty ≡ none
  pub get-insert :
      (j k : ℕ) (v : V) (m : Map) → get j (insert k v m) ≡ (if k == j then some v else get j m)
  pub get-remove : (j k : ℕ) (m : Map) → get j (remove k m) ≡ (if k == j then none else get j m)

-- An unbounded FIFO channel, such as those of async_channel and `SegQueue`: oldest first.
pub record Channel (A : Type 0) : Type 1 where
  pub Chan : Type 0
  pub new : Chan
  pub push : Chan → A → Chan
  pub pop : Chan → Option (A × Chan)
  pub len : Chan → ℕ
  pub contents : Chan → List A
  pub contents-new : contents new ≡ []
  pub contents-push : (c : Chan) (a : A) → contents (push c a) ≡ contents c ++ (a ∷ [])
  pub pop_empty : (c : Chan) → contents c ≡ [] → pop c ≡ none
  pub pop_cons :
      (c : Chan) (a : A) (rest : List A)
      → contents c ≡ a ∷ rest
      → (d : Chan) × (pop c ≡ some (a, d)) × (contents d ≡ rest)
  pub len-contents : (c : Chan) → len c ≡ length (contents c)

-- A counting semaphore. `acquire` takes one permit, or waits (`none`) when there is none.
pub record Semaphore : Type 1 where
  pub Sem : Type 0
  pub new : ℕ → Sem
  pub permits : Sem → ℕ
  pub release : Sem → ℕ → Sem
  pub acquire : Sem → Option Sem
  pub permits-new : (n : ℕ) → permits (new n) ≡ n
  pub permits-release : (s : Sem) (n : ℕ) → permits (release s n) ≡ permits s + n
  pub acquire_none : (s : Sem) → permits s ≡ 0 → acquire s ≡ none
  pub acquire_some :
      (s : Sem) → permits s ≢ 0 → (t : Sem) × (acquire s ≡ some t) × (permits s ≡ suc (permits t))

-- Concrete instances, which show that the interfaces can be met and on which the tests run.
module _ {V : Type 0} where
  abbrev assoc_get : ℕ → List (ℕ × V) → Option V
  assoc_get k [] = none
  assoc_get k ((j, v) ∷ m) = if j == k then some v else assoc_get k m

  abbrev assoc_remove : ℕ → List (ℕ × V) → List (ℕ × V)
  assoc_remove k [] = []
  assoc_remove k ((j, v) ∷ m) =
      let rest = assoc_remove k m in if j == k then rest else (j, v) ∷ rest

  pub assoc_get-remove :
      (j k : ℕ) (m : List (ℕ × V))
      → assoc_get j (assoc_remove k m) ≡ (if k == j then none else assoc_get j m)
  assoc_get-remove j k [] = ground arith
  assoc_get-remove j k ((i, v) ∷ m) = ground (arith, assoc_get-remove j k m)

abbrev pub assoc_table : (V : Type 0) → Table V
assoc_table V = record {
  Map = List (ℕ × V);
  empty = [];
  get = assoc_get;
  insert = λ k v m. (k, v) ∷ m;
  remove = assoc_remove;
  get-empty = λ k. refl;
  get-insert = λ j k v m. refl;
  get-remove = assoc_get-remove;
}

module _ {A : Type 0} where
  abbrev list_pop : List A → Option (A × List A)
  list_pop [] = none
  list_pop (a ∷ rest) = some (a, rest)

  pub list_pop_empty : (c : List A) → c ≡ [] → list_pop c ≡ none
  list_pop_empty c e = rw e

  pub list_pop_cons :
      (c : List A) (a : A) (rest : List A)
      → c ≡ a ∷ rest
      → (d : List A) × (list_pop c ≡ some (a, d)) × (d ≡ rest)
  list_pop_cons c a rest e = (rest, rw e, refl)

abbrev pub list_channel : (A : Type 0) → Channel A
list_channel A = record {
  Chan = List A;
  new = [];
  push = λ c a. c ++ (a ∷ []);
  pop = list_pop;
  len = length;
  contents = λ c. c;
  contents-new = refl;
  contents-push = λ c a. refl;
  pop_empty = list_pop_empty;
  pop_cons = list_pop_cons;
  len-contents = λ c. refl;
}

abbrev count_acquire : ℕ → Option ℕ
count_acquire zero = none
count_acquire (suc n) = some n

pub count_acquire-none : (n : ℕ) → n ≡ 0 → count_acquire n ≡ none
count_acquire-none n e = rw e

pub count_acquire-some : (n : ℕ) → n ≢ 0 → (t : ℕ) × (count_acquire n ≡ some t) × (n ≡ suc t)
count_acquire-some zero h = absurd (h refl)
count_acquire-some (suc n) h = (n, refl, refl)

abbrev pub counter : Semaphore
counter = record {
  Sem = ℕ;
  new = λ n. n;
  permits = λ n. n;
  release = λ s n. s + n;
  acquire = count_acquire;
  permits-new = λ n. refl;
  permits-release = λ s n. refl;
  acquire_none = count_acquire-none;
  acquire_some = count_acquire-some;
}

-- A bounded channel, such as `async_channel::bounded`: what `try_send` says.
pub data TrySend (C : Type 0) : Type 0 where
  accepted : C → TrySend C
  full closed : TrySend C

pub record BoundedChannel (A : Type 0) : Type 1 where
  pub Chan : Type 0
  pub capacity : Chan → ℕ
  pub is_closed : Chan → Bool
  pub contents : Chan → List A
  pub try_send : Chan → A → TrySend Chan
  pub try_send_closed : (c : Chan) (a : A) → is_closed c ≡ true → try_send c a ≡ closed
  pub try_send_full :
      (c : Chan) (a : A)
      → is_closed c ≡ false
      → capacity c ≤ length (contents c)
      → try_send c a ≡ full
  pub try_send_room :
      (c : Chan) (a : A)
      → is_closed c ≡ false
      → length (contents c) < capacity c
      → (d : Chan) × (try_send c a ≡ accepted d)
        × (contents d ≡ contents c ++ (a ∷ []))
        × (capacity d ≡ capacity c)
        × (is_closed d ≡ false)

pub record BoundedList (A : Type 0) : Type 0 where
  pub items : List A
  pub limit : ℕ
  pub shut : Bool

module _ {A : Type 0} where
  abbrev bounded_try_send : BoundedList A → A → TrySend (BoundedList A)
  bounded_try_send c a =
      if c.shut
      then closed
      else if ltb (length c.items) c.limit
      then accepted (record c { items = c.items ++ (a ∷ []) })
      else full

  pub bounded_closed : (c : BoundedList A) (a : A) → c.shut ≡ true → bounded_try_send c a ≡ closed
  bounded_closed c a h = ground arith

  pub bounded_full :
      (c : BoundedList A) (a : A)
      → c.shut ≡ false
      → c.limit ≤ length c.items
      → bounded_try_send c a ≡ full
  bounded_full c a h l = ground arith

  pub bounded_room :
      (c : BoundedList A) (a : A)
      → c.shut ≡ false
      → length c.items < c.limit
      → (d : BoundedList A) × (bounded_try_send c a ≡ accepted d)
        × (d.items ≡ c.items ++ (a ∷ []))
        × (d.limit ≡ c.limit)
        × (d.shut ≡ false)
  bounded_room c a h l = (record c { items = c.items ++ (a ∷ []) }, ground arith, refl, refl, h)

abbrev pub bounded_list : (A : Type 0) → BoundedChannel A
bounded_list A = record {
  Chan = BoundedList A;
  capacity = λ c. c.limit;
  is_closed = λ c. c.shut;
  contents = λ c. c.items;
  try_send = bounded_try_send;
  try_send_closed = bounded_closed;
  try_send_full = bounded_full;
  try_send_room = bounded_room;
}
