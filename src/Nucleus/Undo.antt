-- ===== src/Nucleus/Undo.antt =====
-- `insertBlocked` of phase1/asl.c, undone by `outBlocked`.
use mathlib.Core.List.{append-nil}
use progetto_so.Base.{
  ℕ, ◌+◌, ◌<◌, ◌≡◌, ◌≢◌, ◌⊎◌, inl, inr, sym, ap, ◌∙◌, false, none, some, List, [], ◌∷◌, ◌++◌,
  length, Fresh, In-Fresh, eq_cases, ◌==◌, ==_refl, ==_ne, if◌then◌else◌,
}
use progetto_so.ListX.Rings.{Rings, loose, loose-ne-in_ring}
use progetto_so.Memory.{maxproc, Pcb, Store, p_list, s_procq}
use progetto_so.Asl.{insert_blocked, out_blocked}
use progetto_so.Asl.Inv.{IsAsl, waiting, find_key}
use progetto_so.Asl.Block.{Waits, insert_blocked-Waits}
use progetto_so.Asl.Remove.{out_blocked-Left}
use progetto_so.Nucleus.Sleep.{waiting_role}

-- The queues of all semaphores are those of `js` and `queue` in `s`, and `p` is in no list.
pub record Restored (s : Store) (js fs : List ℕ) (queue : ℕ → List ℕ) (p k : ℕ) (u : Store)
    : Type 0 where
  pub rings : Rings
  pub active : List ℕ
  pub free : List ℕ
  pub queues : ℕ → List ℕ
  pub valid : IsAsl u rings active free queues
  pub outside : rings.role (p_list p) ≡ loose
  pub waits : (i : ℕ) → waiting u active queues i ≡ waiting s js queue i
  pub named : u.pcb p ≡ record (s.pcb p) { p_sem_add = k }
  pub others : (q : ℕ) → q ≢ p → u.pcb q ≡ s.pcb q
  pub conserved : length active + length free ≡ length js + length fs

-- Under the invariant of the active semaphore list, let `p` be a PCB in no queue, `k` not NULL, fewer
-- than `MAXPROC` processes wait at `k`, and a descriptor be free or some process wait there. Then
-- `insertBlocked` of `p` at `k` and `outBlocked` of `p` after it return FALSE and `p`, and every
-- semaphore has the queue that it had before the two calls, `p` is in no queue, the invariant holds
-- with as many descriptors in all, and no PCB has changed but for the semaphore that `p` names.
pub out_blocked-insert_blocked :
    {s : Store} {r : Rings} {js fs : List ℕ} {queue : ℕ → List ℕ}
    → IsAsl s r js fs queue
    → (k p : ℕ) → k ≢ 0
    → r.role (p_list p) ≡ loose
    → length (waiting s js queue k) < maxproc
    → (fs ≢ []) ⊎ (find_key s.s_key k js ≢ none)
    → (t u : Store) × (insert_blocked k p s ≡ some (false, t))
      × (out_blocked p t ≡ some (some p, u))
      × Restored s js fs queue p k u
out_blocked-insert_blocked {s} {r} {js} {fs} {queue} v k p ne hp room able =
    let w = insert_blocked-Waits v k p hp room able in
    let before = waiting s js queue k in
    let at_k : waiting w.store w.active w.queues k ≡ before ++ p ∷ [] =
      w.waits k ∙ ap (λ b. if b then before ++ p ∷ [] else before) (==_refl k) in
    let (u, run, l) =
      out_blocked-Left w.valid k p before [] (ap (λ (x : Pcb). x.p_sem_add) w.named) ne at_k
        absent in
    (
      w.store,
      u,
      w.returns,
      run,
      record {
        rings = l.rings;
        active = l.active;
        free = l.free;
        queues = l.queues;
        valid = l.valid;
        outside = l.loosened;
        waits = λ i. l.waits i ∙ back w i;
        named = ap (λ (f : ℕ → Pcb). f p) l.same ∙ w.named;
        others = λ q other. ap (λ (f : ℕ → Pcb). f q) l.same ∙ w.others q other;
        conserved = l.conserved ∙ w.conserved;
      },
    )
  where
    absent : Fresh p (waiting s js queue k)
    absent = elim (In-Fresh p (waiting s js queue k)) [
      | inl m ↦
          (let (j, role) = waiting_role v k p m in
            absurd (loose-ne-in_ring (s_procq j) (sym hp ∙ role)))
      | inr f ↦ f
    ]

    back :
        (w : Waits s r js fs queue k p (insert_blocked k p s))
        → (i : ℕ)
        → (if i == k then waiting s js queue k ++ [] else waiting w.store w.active w.queues i)
          ≡ waiting s js queue i
    back w i = elim (eq_cases i k) [
      | inl e ↦ rw (e, ==_refl k) (append-nil (waiting s js queue k))
      | inr d ↦ rw (==_ne i k d) (
          w.waits i
          ∙ ap (λ b. if b then waiting s js queue k ++ p ∷ [] else waiting s js queue i)
              (==_ne i k d))
    ]
