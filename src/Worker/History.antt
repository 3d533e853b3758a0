-- ===== src/Worker/History.antt =====
-- `recentSeqHistory` of internal/pinger/worker.go: a bounded queue of settled sequence numbers with an
-- index into it. A list node has a number of its own, `id`, which stands for the node's address.
use mping.Base.{ℕ, suc, Option, none, some, List, [], ◌∷◌, ◌++◌, length, ltb, ◌==◌, if◌then◌else◌}
use mping.Target.Probe.{Probe}

abbrev pub recent_seq_history_cap : ℕ
recent_seq_history_cap = 512

pub data ResolutionKind : Type 0 where
  acked timed_out : ResolutionKind

pub record RecentEntry : Type 0 where
  pub wire_seq : ℕ
  pub kind : ResolutionKind
  pub stats : Probe

pub record Node : Type 0 where
  pub id : ℕ
  pub entry : RecentEntry

-- `order` has the oldest entry first; `next_id` is the address of the next node.
pub record RecentSeqHistory : Type 0 where
  pub order : List Node
  pub index : ℕ → Option Node
  pub next_id : ℕ

unfoldable pub new_history : RecentSeqHistory
new_history = record { order = []; index = λ s. none; next_id = 0 }

-- `order.Remove(el)`.
unfoldable pub remove_node : ℕ → List Node → List Node
remove_node id [] = []
remove_node id (n ∷ ns) = if n.id == id then ns else n ∷ remove_node id ns

abbrev pub put_index : ℕ → Option Node → (ℕ → Option Node) → ℕ → Option Node
put_index s n idx k = if k == s then n else idx k

-- The index entry of an evicted node is cleared only if it is that very node's.
unfoldable pub forget : Node → (ℕ → Option Node) → ℕ → Option Node
forget oldest idx = elim (idx oldest.entry.wire_seq) [
  | none ↦ idx
  | some n ↦ if n.id == oldest.id then put_index oldest.entry.wire_seq none idx else idx
]

-- The loop of evictions: it ends with at most `room` entries.
unfoldable pub evict : ℕ → List Node → (ℕ → Option Node) → List Node × (ℕ → Option Node)
evict room [] idx = ([], idx)
evict room (n ∷ ns) idx =
    let rest = evict room ns (forget n idx) in
    if ltb room (length (n ∷ ns)) then rest else (n ∷ ns, idx)

-- The queue without the node that the index has for the sequence number, if any.
abbrev pub without : Option Node → List Node → List Node
without none order = order
without (some el) order = remove_node el.id order

-- `record`.
unfoldable pub record_seq : ℕ → ResolutionKind → Probe → RecentSeqHistory → RecentSeqHistory
record_seq s kind probe h =
    let node : Node = record {
      id = h.next_id;
      entry = record { wire_seq = s; kind = kind; stats = probe };
    } in
    let (order', idx') =
      evict recent_seq_history_cap (without (h.index s) h.order ++ (node ∷ []))
        (put_index s (some node) h.index) in
    record { order = order'; index = idx'; next_id = suc h.next_id }

abbrev pub entry_of : Option Node → Option RecentEntry
entry_of none = none
entry_of (some el) = some el.entry

-- `lookup`.
unfoldable pub lookup_seq : ℕ → RecentSeqHistory → Option RecentEntry
lookup_seq s h = entry_of (h.index s)
