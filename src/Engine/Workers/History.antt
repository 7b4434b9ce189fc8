-- ===== src/Engine/Workers/History.antt =====
-- The checkpoints of one execution, and what a change of the database does to them
-- (services/engine/src/store.rs).
use ai_engineering_boilerpla.Base.{
  ℕ, ◌+◌, ◌≤◌, ◌<◌, ◌≡◌, inl, inr, refl, ap, sym, ◌∙◌, Bool, true, false, not, ◌&&◌, ◌||◌, some,
  List, [], ◌∷◌, ◌++◌, All, arith, keep, any, length, eqb, ltb, ◌==◌, eq_iff, if◌then◌else◌,
  Bool-cases,
}
use ai_engineering_boilerpla.Base.Integers.{pos}
use ai_engineering_boilerpla.Base.Tables.{
  last_by, greatest, update_where, delete_where, count_where,
}
use ai_engineering_boilerpla.EngineCore.Execution.{ExecutionId}
use ai_engineering_boilerpla.Engine.Rows.{ExecutionRow, CheckpointRow, Database}
use ai_engineering_boilerpla.Engine.Wire.{unsigned_or_zero}
use ai_engineering_boilerpla.Engine.Store.{same_step, same_key}
use ai_engineering_boilerpla.Engine.Sweep.{among}

abbrev pub step_of : CheckpointRow → ℕ
step_of c = unsigned_or_zero c.step

-- The checkpoints of an execution, as they were inserted, and whether it has a row.
abbrev pub history : ExecutionId → Database → List CheckpointRow
history id db = keep (λ c. c.execution_id == id) db.checkpoints

abbrev pub has_row : ExecutionId → Database → Bool
has_row id db = any (λ r. r.id == id) db.executions

abbrev pub Numbered : ℕ → List CheckpointRow → Type 0
Numbered n [] = Unit
Numbered n (c ∷ cs) = (c.step ≡ pos n) × Numbered (n + 1) cs

pub Numbered-append :
    (n : ℕ) (cs : List CheckpointRow) (c : CheckpointRow)
    → Numbered n cs
    → c.step ≡ pos (n + length cs)
    → Numbered n (cs ++ c ∷ [])
Numbered-append n [] c h e = (e ∙ ap pos (omega arith), tt)
Numbered-append n (d ∷ ds) c (a, b) e =
    (a, Numbered-append (n + 1) ds c b (e ∙ ap pos (omega arith)))

-- Numbered checkpoints that lack a step have fewer.
pub Numbered-lacks :
    (n m : ℕ) (cs : List CheckpointRow)
    → Numbered n cs
    → All (λ c. same_step (pos m) c.step ≡ false) cs
    → n ≤ m
    → n + length cs ≤ m
Numbered-lacks n m [] h k l = omega (arith, l)
Numbered-lacks n m (c ∷ cs) (a, b) (d, e) l =
    let f : eqb m n ≡ false = ap (same_step (pos m)) (sym a) ∙ d in
    let g : n + 1 ≤ m = ground (arith, f, l) in omega (arith, Numbered-lacks (n + 1) m cs b e g)

pub lacks-history :
    (c : CheckpointRow) (cs : List CheckpointRow)
    → any (λ q. same_key c q) cs ≡ false
    → All (λ q. same_step c.step q.step ≡ false) (keep (λ q. q.execution_id == c.execution_id) cs)
lacks-history c [] h = tt
lacks-history c (q ∷ qs) h =
    let a : same_key c q ≡ false = ground arith in
    let b : any (λ q. same_key c q) qs ≡ false = ground arith in
    let rest = lacks-history c qs b in
    elim (Bool-cases (q.execution_id == c.execution_id)) [
      | inl e ↦
          let f : (c.execution_id == q.execution_id) ≡ true =
            (eq_iff c.execution_id q.execution_id).1
              (sym ((eq_iff q.execution_id c.execution_id).0 e)) in
          rw e (ground (arith, a, f), rest)
      | inr e ↦ rw e rest
    ]

-- `order_by_desc(step)` finds the last of them.
pub newest-Numbered :
    (n : ℕ) (c : CheckpointRow) (cs : List CheckpointRow)
    → Numbered n (c ∷ cs)
    → (r : CheckpointRow) × (last_by (λ q. true) step_of (c ∷ cs) ≡ some r)
      × (r.step ≡ pos (n + length cs))
unfolding last_by
newest-Numbered n c [] (a, b) = (c, refl, a ∙ ap pos (omega arith))
newest-Numbered n c (d ∷ ds) (a, b) =
    let (r, e, f) = newest-Numbered (n + 1) d ds b in
    let k : ltb (step_of c) (step_of r) ≡ true =
      (λ i. ltb (unsigned_or_zero (a i)) (unsigned_or_zero (f i))) ∙ ground (arith) in
    (
      r,
      ap (λ o. some (greatest step_of c o)) e ∙ (λ i. some (if k i then r else c)),
      f ∙ ap pos (omega arith),
    )

pub last_by-keep :
    (p : CheckpointRow → Bool) (cs : List CheckpointRow)
    → last_by p step_of cs ≡ last_by (λ q. true) step_of (keep p cs)
unfolding last_by
last_by-keep p [] = refl
last_by-keep p (c ∷ cs) = elim (Bool-cases (p c)) [
  | inl e ↦ rw e (ap (λ o. some (greatest step_of c o)) (last_by-keep p cs))
  | inr e ↦ rw e (last_by-keep p cs)
]

pub keep-append :
    (p : CheckpointRow → Bool) (cs ds : List CheckpointRow)
    → keep p (cs ++ ds) ≡ keep p cs ++ keep p ds
keep-append p [] ds = refl
keep-append p (c ∷ cs) ds = elim (Bool-cases (p c)) [
  | inl e ↦ rw e (ap (λ t. c ∷ t) (keep-append p cs ds))
  | inr e ↦ rw e (keep-append p cs ds)
]

pub has_row-update :
    (id : ExecutionId) (p : ExecutionRow → Bool) (f : ExecutionRow → ExecutionRow)
    (rows : List ExecutionRow)
    → ((r : ExecutionRow) → (f r).id ≡ r.id)
    → any (λ r. r.id == id) (update_where p f rows) ≡ any (λ r. r.id == id) rows
unfolding update_where
has_row-update id p f [] h = refl
has_row-update id p f (r ∷ rs) h = λ i.
    (elim (p r) as (λ t. (if t then f r else r).id ≡ r.id) [ true ↦ h r | false ↦ refl ]) i == id
    || has_row-update id p f rs h i

pub has_row-append :
    (id : ExecutionId) (rows : List ExecutionRow) (r : ExecutionRow)
    → any (λ r. r.id == id) (rows ++ r ∷ []) ≡ (any (λ r. r.id == id) rows || (r.id == id))
has_row-append id [] r = ground arith
has_row-append id (q ∷ qs) r = ground (arith, has_row-append id qs r)

pub has_row-delete :
    (id : ExecutionId) (ids : List ExecutionId) (rows : List ExecutionRow)
    → any (λ r. r.id == id) (delete_where (λ r. among ids r.id) rows)
      ≡ (any (λ r. r.id == id) rows && not (among ids id))
unfolding delete_where
has_row-delete id ids [] = ground arith
has_row-delete id ids (r ∷ rs) = elim (Bool-cases (r.id == id)) [
  | inl e ↦
      let k : among ids r.id ≡ among ids id = ap (among ids) ((eq_iff r.id id).0 e) in
      elim (Bool-cases (among ids r.id)) [
        | inl f ↦ rw f (ground (arith, e, f, k, has_row-delete id ids rs))
        | inr f ↦ rw f (ground (arith, e, f, k, has_row-delete id ids rs))
      ]
  | inr e ↦ elim (Bool-cases (among ids r.id)) [
    | inl f ↦ rw f (ground (arith, e, has_row-delete id ids rs))
    | inr f ↦ rw f (ground (arith, e, has_row-delete id ids rs))
  ]
]

pub history-delete :
    (id : ExecutionId) (ids : List ExecutionId) (cs : List CheckpointRow)
    → keep (λ c. c.execution_id == id) (delete_where (λ c. among ids c.execution_id) cs)
      ≡ (if among ids id then [] else keep (λ c. c.execution_id == id) cs)
unfolding delete_where
history-delete id ids [] = ground arith
history-delete id ids (c ∷ cs) = elim (Bool-cases (c.execution_id == id)) [
  | inl e ↦
      let k : among ids c.execution_id ≡ among ids id =
        ap (among ids) ((eq_iff c.execution_id id).0 e) in
      elim (Bool-cases (among ids c.execution_id)) [
        | inl f ↦ rw f (ground (arith, e, f, k, history-delete id ids cs))
        | inr f ↦ rw f (ground (arith, e, f, k, history-delete id ids cs))
      ]
  | inr e ↦ elim (Bool-cases (among ids c.execution_id)) [
    | inl f ↦ rw f (ground (arith, e, history-delete id ids cs))
    | inr f ↦ rw f (ground (arith, e, history-delete id ids cs))
  ]
]

-- A row that was counted is there.
pub has_row-count :
    (id : ExecutionId) (q : ExecutionRow → Bool) (rows : List ExecutionRow)
    → 0 < count_where (λ r. r.id == id && q r) rows
    → any (λ r. r.id == id) rows ≡ true
unfolding count_where
has_row-count id q [] h = absurd (omega (arith, h))
has_row-count id q (r ∷ rs) h = elim (Bool-cases (r.id == id)) [
  | inl e ↦ rw e refl
  | inr e ↦ rw e (has_row-count id q rs (ground (arith, e, h)))
]
