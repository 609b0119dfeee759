-- ===== src/Store/Tasks/Lookup.antt =====
-- The row of a task, found by its id.
use backuper.Prelude.{
  ℕ, ◌≡◌, sym, ap, ◌∙◌, true, false, List, [], ◌∷◌, some, if◌then◌else◌, ◌==◌, Bool-cases, inl, inr,
}
use backuper.Store.{Task}
use backuper.Store.Tasks.{find_task, update_task}

found : (id : ℕ) (t : Task) (ts : List Task) → (t.id == id) ≡ true → find_task id (t ∷ ts) ≡ some t
found id t ts e = ap (λ b. if b then some t else find_task id ts) e

passed :
    (id : ℕ) (t : Task) (ts : List Task)
    → (t.id == id) ≡ false
    → find_task id (t ∷ ts) ≡ find_task id ts
passed id t ts e = ap (λ b. if b then some t else find_task id ts) e

-- the first row with an id is the one that an update of the id changes
pub find_task-update_task :
    (id : ℕ) (f : Task → Task) (row : Task) (ts : List Task)
    → ((t : Task) → (f t).id ≡ t.id)
    → find_task id ts ≡ some row
    → find_task id (update_task id f ts) ≡ some (f row)
find_task-update_task id f row [] keeps h = cc
find_task-update_task id f row (t ∷ ts) keeps h = elim (Bool-cases (t.id == id)) [
  | inl e ↦
      let own : t ≡ row = cc (found id t ts e, h) in
      ap (λ b. find_task id ((if b then f t else t) ∷ update_task id f ts)) e
      ∙ found id (f t) (update_task id f ts) (ap (λ k. k == id) (keeps t) ∙ e)
      ∙ ap (λ u. some (f u)) own
  | inr e ↦
      ap (λ b. find_task id ((if b then f t else t) ∷ update_task id f ts)) e
      ∙ passed id t (update_task id f ts) e
      ∙ find_task-update_task id f row ts keeps (sym (passed id t ts e) ∙ h)
]
