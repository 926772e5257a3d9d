-- ===== src/Graph/Silence.antt =====
-- validateGraph of internal/engine/graph.go: what holds where one of its checks reports nothing.
use canal.Prelude.{
  ℕ, ◌≡◌, refl, sym, subst, Bool, true, false, not, Option, none, some, List, [], ◌∷◌, ◌++◌, ◌==◌,
  inl, inr, Bool-cases, arith,
}
use canal.Negotiate.{
  Edge, Node, Kind, kind_source, kind_sink, kind_transform, kind_buffer, kind_encoder, kind_decoder,
  kind_framer, kind_deframer, kind_compressor, find_node,
}
use canal.Graph.{is_in, ids, origins, inputs_of}
use canal.Graph.Acyclicity.{is_in-append}
use canal.Graph.Validation.{
  Registry, Issue, Issues, consumes, flag, seen_ids, check_edges, check_inputs, check_merge,
  check_failed_edges, check_node, check_nodes, terminal_issues, check_terminals, cycle_issues,
  reach_issues, check_ids, duplicate_id, unknown_input, unknown_component, not_consuming, own_input,
}

pub nil_left : (xs ys : Issues) → xs ++ ys ≡ [] → xs ≡ []
nil_left [] ys h = refl
nil_left (x ∷ xs) ys h = absurd (cc h)

pub nil_right : (xs ys : Issues) → xs ++ ys ≡ [] → ys ≡ []
nil_right [] ys h = h
nil_right (x ∷ xs) ys h = absurd (cc h)

flag_off :
    (b : Bool) (id : ℕ) (i : Issue) (rest : Issues)
    → flag b id i ++ rest ≡ []
    → (b ≡ false) × (rest ≡ [])
flag_off false id i rest h = (refl, h)
flag_off true id i rest h = absurd (cc h)

seen_ids-ids : (k : ℕ) (ns : List Node) → is_in k (seen_ids ns) ≡ true → is_in k (ids ns) ≡ true
unfolding seen_ids
seen_ids-ids k [] h = h
seen_ids-ids k (n ∷ ns) h = ground (arith, seen_ids-ids k ns)

check_edges-nil :
    (seen : List ℕ) (id b : ℕ) (es : List Edge)
    → check_edges seen id es ≡ []
    → is_in b (origins es) ≡ true
    → is_in b seen ≡ true
unfolding check_edges
check_edges-nil seen id b [] h m = absurd (cc m)
check_edges-nil seen id b (e ∷ es) h m =
    let own = flag (e.origin == id) id own_input ++ check_edges seen id es in
    let (known, more) = flag_off (not (is_in e.origin seen)) id unknown_input own h in
    let (other, rest) = flag_off (e.origin == id) id own_input (check_edges seen id es) more in
    elim (Bool-cases (e.origin == b)) [
      | inl y ↦
          let same : e.origin ≡ b = ground arith in
          subst (λ x. is_in x seen ≡ true) same (ground (arith, known))
      | inr z ↦ check_edges-nil seen id b es rest (rw z at m)
    ]

-- A node that is accepted reads from nodes.
check_node-nil :
    (reg : Registry) (graph : List Node) (n : Node) (b : ℕ)
    → check_node reg graph n ≡ []
    → is_in b (origins n.inputs) ≡ true
    → is_in b (ids graph) ≡ true
unfolding check_node
check_node-nil reg graph n b h m =
    let edges = check_edges (seen_ids graph) n.id n.inputs in
    let rest =
      check_inputs n ++ (check_merge reg n ++ check_failed_edges reg graph n.id n.inputs) in
    let (known, more) =
      flag_off (not (reg.has n.kind n.name)) n.id unknown_component (edges ++ rest) h in
    seen_ids-ids b graph
      (check_edges-nil (seen_ids graph) n.id b n.inputs (nil_left edges rest more) m)

pub check_nodes-nil :
    (reg : Registry) (graph : List Node) (a b : ℕ) (ns : List Node)
    → check_nodes reg graph ns ≡ []
    → is_in b (inputs_of a ns) ≡ true
    → is_in b (ids graph) ≡ true
unfolding check_nodes inputs_of
check_nodes-nil reg graph a b [] h m = absurd (cc m)
check_nodes-nil reg graph a b (n ∷ ns) h m =
    let here = check_node reg graph n in
    let rest = check_nodes reg graph ns in
    let later = check_nodes-nil reg graph a b ns (nil_right here rest h) in
    elim (Bool-cases (n.id == a)) [
      | inl y ↦ elim (Bool-cases (is_in b (origins n.inputs))) [
        | inl y' ↦ check_node-nil reg graph n b (nil_left here rest h) y'
        | inr z' ↦
            later
              (ground (arith, is_in-append b (origins n.inputs) (inputs_of a ns), rw y at m, z'))
      ]
      | inr z ↦ later (rw z at m)
    ]

pub find_node-ids :
    (k : ℕ) (ns : List Node) → is_in k (ids ns) ≡ true → (n : Node) × (find_node k ns ≡ some n)
unfolding find_node
find_node-ids k [] h = absurd (cc h)
find_node-ids k (n ∷ ns) h = elim (Bool-cases (n.id == k)) [
  | inl y ↦ (n, rw y refl)
  | inr z ↦ let (found, e) = find_node-ids k ns (rw z at h) in (found, rw z e)
]

consumes-kind : (k : Kind) → not (consumes k) ≡ false → k ≡ kind_sink
unfolding consumes
consumes-kind kind_source h = absurd (cc h)
consumes-kind kind_sink h = refl
consumes-kind kind_transform h = absurd (cc h)
consumes-kind kind_buffer h = absurd (cc h)
consumes-kind kind_encoder h = absurd (cc h)
consumes-kind kind_decoder h = absurd (cc h)
consumes-kind kind_framer h = absurd (cc h)
consumes-kind kind_deframer h = absurd (cc h)
consumes-kind kind_compressor h = absurd (cc h)

flag_nil : (b : Bool) (id : ℕ) (i : Issue) → flag b id i ≡ [] → b ≡ false
flag_nil false id i h = refl
flag_nil true id i h = absurd (cc h)

terminal_issues-flag :
    (graph : List Node) (t : ℕ) (n : Node)
    → find_node t graph ≡ some n
    → terminal_issues graph t ≡ []
    → flag (not (consumes n.kind)) t not_consuming ≡ []
terminal_issues-flag graph t n found h =
    subst (λ o. elim o [ none ↦ [] | some m ↦ flag (not (consumes m.kind)) t not_consuming ] ≡ [])
      found h

pub check_terminals-nil :
    (graph : List Node) (t : ℕ) (ts : List ℕ) (n : Node)
    → check_terminals graph ts ≡ []
    → is_in t ts ≡ true
    → find_node t graph ≡ some n
    → n.kind ≡ kind_sink
unfolding check_terminals
check_terminals-nil graph t [] n h m found = absurd (cc m)
check_terminals-nil graph t (x ∷ xs) n h m found = elim (Bool-cases (x == t)) [
  | inl y ↦
      let same : t ≡ x = ground arith in
      let here = subst (λ k. find_node k graph ≡ some n) same found in
      consumes-kind n.kind (
        flag_nil (not (consumes n.kind)) x not_consuming (
          terminal_issues-flag graph x n here
            (nil_left (terminal_issues graph x) (check_terminals graph xs) h)))
  | inr z ↦
      check_terminals-nil graph t xs n
        (nil_right (terminal_issues graph x) (check_terminals graph xs) h) (rw z at m) found
]

pub cycle_issues-nil : (o : Option ℕ) → cycle_issues o ≡ [] → o ≡ none
unfolding cycle_issues
cycle_issues-nil none h = refl
cycle_issues-nil (some id) h = absurd (cc h)

pub reach_issues-nil : (us : List ℕ) → reach_issues us ≡ [] → us ≡ []
unfolding reach_issues
reach_issues-nil [] h = refl
reach_issues-nil (u ∷ us) h = absurd (cc h)

-- No id twice.
abbrev pub Unique : List ℕ → Type 0
Unique [] = Unit
Unique (k ∷ ks) = (is_in k ks ≡ false) × Unique ks

-- Ids that are not empty, none twice, and none that was seen before.
abbrev Fresh : List ℕ → List ℕ → Type 0
Fresh seen ks =
    ((k : ℕ) → is_in k seen ≡ true → is_in k ks ≡ false) × Unique ks × (is_in 0 ks ≡ false)

pub check_ids-nil : (seen : List ℕ) (ns : List Node) → check_ids seen ns ≡ [] → Fresh seen (ids ns)
unfolding check_ids
check_ids-nil seen [] h = ((λ k m. refl), tt, refl)
check_ids-nil seen (n ∷ ns) h = elim (Bool-cases (n.id == 0)) [
  | inl y ↦ absurd (cc (rw y at h))
  | inr z ↦
      let (other, rest) =
        flag_off (is_in n.id seen) n.id duplicate_id (check_ids (n.id ∷ seen) ns) (rw z at h) in
      let (apart, unique, filled) = check_ids-nil (n.id ∷ seen) ns rest in
      (
        (λ k m. elim (Bool-cases (n.id == k)) [
          | inl y ↦
              let same : n.id ≡ k = ground arith in
              absurd (cc (other, subst (λ x. is_in x seen ≡ true) (sym same) m))
          | inr z' ↦ rw z' (apart k (ground (arith, m)))
        ]),
        (apart n.id (ground arith), unique),
        rw z filled,
      )
]
