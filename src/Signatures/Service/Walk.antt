-- ===== src/Signatures/Service/Walk.antt =====
-- packages/db/src/repositories/signature-ancestry.repo.ts: the walk over replaced signatures, beside the
-- edges that lead from one signature to another.
use growthmind.Prelude.{
  ◌≤◌, ℕ, zero, suc, ◌+◌, ◌≡◌, refl, sym, ◌∙◌, ap, Text, text_eq, text_eq_iff, true, none, some,
  List, [], ◌∷◌, map_get, set_has, set_add, arith, Bool-cases, Option-cases, inl, inr, ◌↔◌, ◌⊎◌,
}
use growthmind.Signatures.Ledger.{AncestryRecord, Ledger}
use growthmind.Signatures.Service.{
  AncestryResolution, resolved_to, cycle, depth_cap, resolve_loop, resolve,
  ancestry_resolution_max_hops, row_state, consult_signature,
}
use growthmind.Findings.Suppression.{resolved, suppression_decision, suppression_policy_version}
use growthmind.Signatures.Service.Laws.{is_suppressed}

-- So many edges lead from the first signature to the second, one after the other.
abbrev pub Leads : Ledger → ℕ → Text → Text → Type 0
Leads ledger zero from to = from ≡ to
Leads ledger (suc n) from to =
    (edge : AncestryRecord) × (map_get text_eq from ledger.edges ≡ some edge)
    × Leads ledger n edge.new_signature to

-- The signature was not replaced.
abbrev pub IsLast : Ledger → Text → Type 0
IsLast ledger signature = map_get text_eq signature ledger.edges ≡ none

-- The signature at the end of the edges that leave another one, and how many they are.
abbrev pub IsEnd : Ledger → Text → Text → ℕ → Type 0
IsEnd ledger signature last hops =
    Leads ledger hops signature last × IsLast ledger last × (hops ≤ ancestry_resolution_max_hops)

-- Edges that lead on from where others end.
pub Leads-trans :
    (ledger : Ledger) (m n : ℕ) (from between to : Text)
    → Leads ledger m from between
    → Leads ledger n between to
    → (k : ℕ) × Leads ledger k from to
Leads-trans ledger zero n from between to h k = (n, rw h k)
Leads-trans ledger (suc m) n from between to (edge, e, h) k =
    let (count, rest) = Leads-trans ledger m n edge.new_signature between to h k in
    (suc count, (edge, e, rest))

-- The edges from a signature end at one place, after one number of them.
pub Leads-unique :
    (ledger : Ledger) (m n : ℕ) (from a b : Text)
    → Leads ledger m from a
    → IsLast ledger a
    → Leads ledger n from b
    → IsLast ledger b
    → (a ≡ b) × (m ≡ n)
Leads-unique ledger zero zero from a b h p k q = (sym h ∙ k, refl)
Leads-unique ledger zero (suc n) from a b h p (edge, e, k) q = cc (e, rw (← h) at p)
Leads-unique ledger (suc m) zero from a b (edge, e, h) p k q = cc (e, rw (← k) at q)
Leads-unique ledger (suc m) (suc n) from a b (edge, e, h) p (other, f, k) q =
    let same : edge ≡ other = ground (arith, e, f) in
    let (there, count) = Leads-unique ledger m n edge.new_signature a b h p (rw same k) q in
    (there, ap suc count)

-- What the loop resolves to is led to from where it stands.
resolve_loop-Leads :
    (left hops : ℕ) (visited : List Text) (ledger : Ledger) (current : Text) {last : Text} {h : ℕ}
    → resolve_loop left hops visited ledger current ≡ resolved_to last h
    → (n : ℕ) × Leads ledger n current last × IsLast ledger last × (hops + n ≡ h) × (n ≤ left)
unfolding resolve_loop
resolve_loop-Leads zero hops visited ledger current {last} {h} e =
    elim (Option-cases (map_get text_eq current ledger.edges)) [
      | inl none_left ↦
          let stays = rw none_left at e in
          let same : current ≡ last = ground arith in
          let count : hops ≡ h = ground arith in
          (0, same, rw (← same) none_left, omega (arith, count), omega arith)
      | inr (edge, found) ↦ elim (Bool-cases (set_has text_eq edge.new_signature visited)) [
        | inl seen ↦ cc (rw (found, seen) at e)
        | inr fresh ↦ cc (rw (found, fresh) at e)
      ]
    ]
resolve_loop-Leads (suc left) hops visited ledger current {last} {h} e =
    elim (Option-cases (map_get text_eq current ledger.edges)) [
      | inl none_left ↦
          let stays = rw none_left at e in
          let same : current ≡ last = ground arith in
          let count : hops ≡ h = ground arith in
          (0, same, rw (← same) none_left, omega (arith, count), omega arith)
      | inr (edge, found) ↦ elim (Bool-cases (set_has text_eq edge.new_signature visited)) [
        | inl seen ↦ cc (rw (found, seen) at e)
        | inr fresh ↦
            let (n, leads, ends, count, within) =
              resolve_loop-Leads left (hops + 1) (set_add text_eq edge.new_signature visited) ledger
                edge.new_signature (rw (found, fresh) at e) in
            (suc n, (edge, found, leads), ends, omega (arith, count), omega (arith, within))
      ]
    ]

set_has-added :
    (v k : Text) (visited : List Text)
    → set_has text_eq v (set_add text_eq k visited) ≡ true
    → (k ≡ v) ⊎ (set_has text_eq v visited ≡ true)
set_has-added v k [] h = inl ((text_eq_iff k v).0 (ground (arith, h)))
set_has-added v k (j ∷ visited) h = elim (Bool-cases (text_eq j k)) [
  | inl e ↦ inr (rw e at h)
  | inr e ↦ elim (Bool-cases (text_eq j v)) [
    | inl here ↦ inr (rw here refl)
    | inr other ↦ elim (set_has-added v k visited (rw (e, other) at h)) [
      | inl same ↦ inl same
      | inr rest ↦ inr (rw other rest)
    ]
  ]
]

-- Every signature seen before is farther from the end than so many edges.
abbrev Behind : Ledger → List Text → Text → ℕ → Type 0
Behind ledger visited last n =
    (v : Text) → set_has text_eq v visited ≡ true → (d : ℕ) × Leads ledger d v last × (n ≤ d)

Behind-set_add :
    (ledger : Ledger) (visited : List Text) (next last : Text) (n : ℕ)
    → Leads ledger n next last
    → Behind ledger visited last (suc n)
    → Behind ledger (set_add text_eq next visited) last n
Behind-set_add ledger visited next last n leads behind v h = elim (set_has-added v next visited h) [
  | inl same ↦ (n, rw (← same) leads, omega arith)
  | inr before ↦ let (d, from_there, far) = behind v before in (d, from_there, omega (arith, far))
]

-- The loop gets to the end of the edges, if that is near enough.
resolve_loop-near :
    (left hops n : ℕ) (visited : List Text) (ledger : Ledger) (current last : Text)
    → Leads ledger n current last
    → IsLast ledger last
    → n ≤ left
    → Behind ledger visited last n
    → resolve_loop left hops visited ledger current ≡ resolved_to last (hops + n)
unfolding resolve_loop
resolve_loop-near zero hops zero visited ledger current last h p q b =
    let none_left : map_get text_eq current ledger.edges ≡ none = rw h p in
    rw none_left (ap (λ v. resolved_to v hops) h ∙ ap (resolved_to last) (omega arith))
resolve_loop-near (suc left) hops zero visited ledger current last h p q b =
    let none_left : map_get text_eq current ledger.edges ≡ none = rw h p in
    rw none_left (ap (λ v. resolved_to v hops) h ∙ ap (resolved_to last) (omega arith))
resolve_loop-near zero hops (suc n) visited ledger current last h p q b = absurd (omega (arith, q))
resolve_loop-near (suc left) hops (suc n) visited ledger current last (edge, e, h) p q b =
    rw e (elim (Bool-cases (set_has text_eq edge.new_signature visited)) [
      | inl seen ↦
          let (d, from_there, far) = b edge.new_signature seen in
          let count = (Leads-unique ledger n d edge.new_signature last last h p from_there p).1 in
          absurd (omega (arith, count, far))
      | inr fresh ↦ rw fresh (
          resolve_loop-near left (hops + 1) n (set_add text_eq edge.new_signature visited) ledger
            edge.new_signature last h p (omega (arith, q))
            (Behind-set_add ledger visited edge.new_signature last n h b)
          ∙ ap (resolved_to last) (omega arith))
    ])

at_start :
    (ledger : Ledger) (signature last : Text) (n : ℕ)
    → Leads ledger n signature last
    → Behind ledger (signature ∷ []) last n
at_start ledger signature last n h v e =
    let same : signature ≡ v = (text_eq_iff signature v).0 (ground (arith, e)) in
    (n, rw (← same) h, omega arith)

-- A signature resolves to another one after so many hops exactly if so many edges lead from the one to
-- the other, the other was not itself replaced, and they are eight at most.
pub resolve-IsEnd :
    (ledger : Ledger) (signature last : Text) (hops : ℕ)
    → (resolve ledger signature ≡ resolved_to last hops) ↔ IsEnd ledger signature last hops
resolve-IsEnd ledger signature last hops = (
  (λ e.
      let (n, leads, ends, count, within) =
        resolve_loop-Leads ancestry_resolution_max_hops 0 (signature ∷ []) ledger signature e in
      let same : n ≡ hops = omega (arith, count) in
      (rw (← same) leads, ends, omega (arith, same, within))),
  (λ h.
      let (leads, ends, within) = h in
      resolve_loop-near ancestry_resolution_max_hops 0 hops (signature ∷ []) ledger signature last
        leads ends within (at_start ledger signature last hops leads)
      ∙ ap (resolved_to last) (omega arith)),
)

pub Leads-same_edges :
    (a b : Ledger) (n : ℕ) (from to : Text)
    → a.edges ≡ b.edges
    → Leads a n from to
    → Leads b n from to
Leads-same_edges a b zero from to e h = h
Leads-same_edges a b (suc n) from to e (edge, found, h) =
    (edge, rw e at found, Leads-same_edges a b n edge.new_signature to e h)

-- A state that suppresses what resolves to a signature suppresses all that leads to it.
pub consulted_far :
    (ledger : Ledger) (project_id from last : Text) (n : ℕ)
    → Leads ledger n from last
    → IsLast ledger last
    → is_suppressed (
        suppression_decision
          (resolved (row_state ledger project_id last))
          suppression_policy_version)
      ≡ true
    → is_suppressed (consult_signature ledger project_id from) ≡ true
unfolding consult_signature suppression_decision
consulted_far ledger project_id from last n leads ends gone = go (resolve ledger from) refl
  where
    go :
        (r : AncestryResolution)
        → resolve ledger from ≡ r
        → is_suppressed (consult_signature ledger project_id from) ≡ true
    go (resolved_to later hops) e =
        let (there, last_there, within) = (resolve-IsEnd ledger from later hops).0 e in
        let same = (Leads-unique ledger n hops from last later leads ends there last_there).0 in
        rw (e, ← same) gone
    go cycle e = rw e refl
    go depth_cap e = rw e refl
