-- ===== src/Asl/Agree.antt =====
-- The invariant of phase1/asl.c depends on the lists of descriptors alone.
use progetto_so.Base.{ℕ, ◌≡◌, sym, ◌∙◌, List, All-map}
use progetto_so.ListX.{Links}
use progetto_so.ListX.Rings.{Rings, Linked}
use progetto_so.Memory.{Store, s_procq, semd_h, semd_free_h, with_links}
use progetto_so.Asl.Inv.{IsAsl}

-- Two descriptions of memory agree on the lists of descriptors.
pub record Agrees (r r' : Rings) : Type 0 where
  pub procq_role : (j : ℕ) → r'.role (s_procq j) ≡ r.role (s_procq j)
  pub procq_list : (j : ℕ) → r'.list (s_procq j) ≡ r.list (s_procq j)
  pub active_role : r'.role semd_h ≡ r.role semd_h
  pub active_list : r'.list semd_h ≡ r.list semd_h
  pub free_role : r'.role semd_free_h ≡ r.role semd_free_h
  pub free_list : r'.list semd_free_h ≡ r.list semd_free_h

pub IsAsl-agree :
    {s : Store} {r : Rings} {js fs : List ℕ} {queue : ℕ → List ℕ}
    → IsAsl s r js fs queue
    → (r' : Rings) (t : Links) → Linked t r'
    → Agrees r r'
    → IsAsl (with_links s t) r' js fs queue
IsAsl-agree {js} v r' t l a = record {
  core = record {
    linked = l;
    active_head = a.active_role ∙ v.active_head;
    free_head = a.free_role ∙ v.free_head;
    active = a.active_list ∙ v.active;
    free = a.free_list ∙ v.free;
    sorted = v.sorted;
    bounded = v.bounded;
    queues =
        All-map js
          (λ j q. record {
            at_head = a.procq_role j ∙ q.at_head;
            entries = a.procq_list j ∙ q.entries;
            named = q.named;
            small = q.small;
          })
          v.queues;
    sentinels = λ j k e. v.sentinels j k (sym (a.procq_role j) ∙ e);
  };
  busy = v.busy;
}
