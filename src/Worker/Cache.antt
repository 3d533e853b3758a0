-- ===== src/Worker/Cache.antt =====
-- `recentSeqHistory` of internal/pinger/worker.go: what was recorded last is found.
use mping.Base.{
  ℕ, suc, ◌≤◌, ◌<◌, ◌≡◌, sym, ap, ◌∙◌, inl, inr, false, Option, none, some, List, [], ◌∷◌, ◌++◌,
  arith, length, ltb, ◌==◌, Bool-cases, Option-cases,
}
use mping.Target.Probe.{Probe}
use mping.Worker.History.{
  ResolutionKind, Node, RecentSeqHistory, recent_seq_history_cap, new_history, remove_node,
  put_index, forget, evict, without, record_seq, entry_of, lookup_seq,
}

-- Every node has an address below `n`.
abbrev pub AllBelow : ℕ → List Node → Type 0
AllBelow n [] = Unit {0}
AllBelow n (x ∷ xs) = (x.id < n) × AllBelow n xs

AllBelow-mono : (n n' : ℕ) (xs : List Node) → n ≤ n' → AllBelow n xs → AllBelow n' xs
AllBelow-mono n n' [] le a = tt
AllBelow-mono n n' (x ∷ xs) le a = (omega (arith, a.0), AllBelow-mono n n' xs le a.1)

remove_node-AllBelow : (n i : ℕ) (xs : List Node) → AllBelow n xs → AllBelow n (remove_node i xs)
unfolding remove_node
remove_node-AllBelow n i [] a = tt
remove_node-AllBelow n i (x ∷ xs) a = elim (Bool-cases (x.id == i)) [
  | inl e ↦ rw e a.1
  | inr e ↦ rw e (a.0, remove_node-AllBelow n i xs a.1)
]

append-AllBelow :
    (n : ℕ) (xs : List Node) (x : Node) → AllBelow n xs → x.id < n → AllBelow n (xs ++ (x ∷ []))
append-AllBelow n [] x a lt = (lt, tt)
append-AllBelow n (y ∷ ys) x a lt = (a.0, append-AllBelow n ys x a.1 lt)

evict-AllBelow :
    (n room : ℕ) (xs : List Node) (idx : ℕ → Option Node)
    → AllBelow n xs
    → AllBelow n (evict room xs idx).0
unfolding evict
evict-AllBelow n room [] idx a = tt
evict-AllBelow n room (x ∷ xs) idx a = elim (Bool-cases (ltb room (length (x ∷ xs)))) [
  | inl e ↦ rw e (evict-AllBelow n room xs (forget x idx) a.1)
  | inr e ↦ rw e a
]

abbrev node_id : Option Node → ℕ
node_id none = 0
node_id (some n) = n.id

-- Forgetting another node leaves the entry of `node`.
forget-other :
    (x node : Node) (s : ℕ) (idx : ℕ → Option Node)
    → x.id < node.id
    → idx s ≡ some node
    → forget x idx s ≡ some node
unfolding forget
forget-other x node s idx lt e = elim (Option-cases (idx x.entry.wire_seq)) [
  | inl h ↦ simp (forget, h) e
  | inr (m, h) ↦ elim (Bool-cases (m.id == x.id)) [
    | inl q ↦ elim (Bool-cases (s == x.entry.wire_seq)) [
      | inl k ↦
          let same : s ≡ x.entry.wire_seq = ground arith in
          let ids : m.id ≡ node.id = ap node_id (sym h ∙ ap idx (sym same) ∙ e) in
          let there : m.id ≡ x.id = ground arith in absurd (omega arith)
      | inr k ↦ simp (forget, h, q, k) e
    ]
    | inr q ↦ simp (forget, h, q) e
  ]
]

evict-last :
    (room : ℕ) (xs : List Node) (node : Node) (s : ℕ) (idx : ℕ → Option Node)
    → 0 < room
    → AllBelow node.id xs
    → idx s ≡ some node
    → (evict room (xs ++ (node ∷ [])) idx).1 s ≡ some node
unfolding evict
evict-last room [] node s idx lt a e = let f : ltb room 1 ≡ false = ground arith in rw f e
evict-last room (x ∷ xs) node s idx lt a e =
    elim (Bool-cases (ltb room (length ((x ∷ xs) ++ (node ∷ []))))) [
      | inl h ↦
          rw h (evict-last room xs node s (forget x idx) lt a.1 (forget-other x node s idx a.0 e))
      | inr h ↦ rw h e
    ]

-- Nodes get ever larger addresses.
abbrev pub InOrder : RecentSeqHistory → Type 0
InOrder h = AllBelow h.next_id h.order

pub new_history-InOrder : InOrder new_history
unfolding new_history
new_history-InOrder = tt

without-AllBelow :
    (n : ℕ) (o : Option Node) (xs : List Node) → AllBelow n xs → AllBelow n (without o xs)
without-AllBelow n none xs a = a
without-AllBelow n (some el) xs a = remove_node-AllBelow n el.id xs a

pub record_seq-InOrder :
    (s : ℕ) (kind : ResolutionKind) (p : Probe) (h : RecentSeqHistory)
    → InOrder h
    → InOrder (record_seq s kind p h)
unfolding record_seq
record_seq-InOrder s kind p h a =
    let node : Node = record {
      id = h.next_id;
      entry = record { wire_seq = s; kind = kind; stats = p };
    } in
    let xs = without (h.index s) h.order in
    let below =
      AllBelow-mono h.next_id (suc h.next_id) xs (omega arith)
        (without-AllBelow h.next_id (h.index s) h.order a) in
    evict-AllBelow (suc h.next_id) recent_seq_history_cap (xs ++ (node ∷ []))
      (put_index s (some node) h.index)
      (append-AllBelow (suc h.next_id) xs node below (omega arith))

-- What was recorded last for a sequence number is what is found for it.
pub lookup_seq-record_seq :
    (s : ℕ) (kind : ResolutionKind) (p : Probe) (h : RecentSeqHistory)
    → InOrder h
    → lookup_seq s (record_seq s kind p h) ≡ some (record { wire_seq = s; kind = kind; stats = p })
unfolding lookup_seq record_seq
lookup_seq-record_seq s kind p h a =
    let node : Node = record {
      id = h.next_id;
      entry = record { wire_seq = s; kind = kind; stats = p };
    } in
    let found =
      evict-last recent_seq_history_cap (without (h.index s) h.order) node s
        (put_index s (some node) h.index) (omega arith)
        (without-AllBelow h.next_id (h.index s) h.order a) (ground arith) in
    ap entry_of found
