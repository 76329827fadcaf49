-- ===== src/LockOrder/Recording.antt =====
-- The inner loop: which edges it records, and when it reports a cycle.
use laplace.Prelude.{
  String, str_eq, eq_iff, ◌≡◌, refl, subst, ◌≢◌, ◌↔◌, ◌⊎◌, inl, inr, true, false, Bool-cases, List,
  [], ◌∷◌, Elem, arith,
}
use laplace.LockOrder.Edges.{
  HoldMode, Hold, Edge, cycle, go, closes, any_closes, contains_edge, insert_edge, record_edges,
}
use laplace.LockOrder.Trace.{Inverts}

-- The edge that an acquisition of `r` makes with what is held.
abbrev pub edge : Hold → String → HoldMode → Edge
edge h r m = record { held = h.resource; held_mode = h.mode; acquired = r; acquired_mode = m }

closes_iff :
    (h : Hold) (r : String) (m : HoldMode) (f : Edge)
    → (closes r m h.resource h.mode f ≡ true) ↔ Inverts (edge h r m) f
unfolding closes
closes_iff h r m f = ground (arith, eq_iff f.held r, eq_iff f.acquired h.resource)

pub any_closes_of :
    (h : Hold) (r : String) (m : HoldMode) (f : Edge) (es : List Edge)
    → Elem f es
    → Inverts (edge h r m) f
    → any_closes r m h.resource h.mode es ≡ true
unfolding any_closes
any_closes_of h r m f [] e i = absurd e
any_closes_of h r m f (x ∷ es) e i = ground (arith, closes_iff h r m f, any_closes_of h r m f es)

pub of_any_closes :
    (h : Hold) (r : String) (m : HoldMode) (es : List Edge)
    → any_closes r m h.resource h.mode es ≡ true
    → (f : Edge) × Elem f es × Inverts (edge h r m) f
unfolding any_closes
of_any_closes h r m [] c = absurd (ground arith)
of_any_closes h r m (x ∷ es) c = elim (Bool-cases (closes r m h.resource h.mode x)) [
  | inl hit ↦ (x, inl refl, (closes_iff h r m x).0 hit)
  | inr miss ↦ let (f, e, i) = of_any_closes h r m es (ground arith) in (f, inr e, i)
]

contains_edge_of : (a : Edge) (es : List Edge) → contains_edge a es ≡ true → Elem a es
unfolding contains_edge
contains_edge_of a [] c = absurd (ground arith)
contains_edge_of a (e ∷ es) c =
    ground (arith, eq_iff a.held e.held, eq_iff a.acquired e.acquired, contains_edge_of a es)

pub insert_edge-Elem :
    (x a : Edge) (es : List Edge) → Elem x (insert_edge a es) ↔ (Elem x es ⊎ (x ≡ a))
unfolding insert_edge
insert_edge-Elem x a es = elim (Bool-cases (contains_edge a es)) [
  | inl old ↦
      rw (old, insert_edge)
        (inl, λ s. elim s [ inl p ↦ p | inr q ↦ rw q (contains_edge_of a es old) ])
  | inr new ↦ rw (new, insert_edge) (ground arith)
]

module _ (r : String) (m : HoldMode) where
  -- What every insertion of the loop keeps holds of the edges that it leaves.
  pub record_edges-keeps :
      (Q : List Edge → Type 0) (hs : List Hold) (es : List Edge) {es' : List Edge}
      → ((h : Hold) (fs : List Edge)
          → Elem h hs
          → h.resource ≢ r
          → any_closes r m h.resource h.mode fs ≡ false
          → Q fs
          → Q (insert_edge (edge h r m) fs))
      → Q es
      → record_edges r m hs es ≡ go es'
      → Q es'
  unfolding record_edges
  record_edges-keeps Q [] es keep q e = subst Q (ground arith) q
  record_edges-keeps Q (h ∷ hs) es keep q e = elim (Bool-cases (str_eq h.resource r)) [
    | inl same ↦ record_edges-keeps Q hs es (λ g fs p. keep g fs (inr p)) q (ground arith)
    | inr other ↦ elim (Bool-cases (any_closes r m h.resource h.mode es)) [
      | inl hit ↦ absurd (ground arith)
      | inr miss ↦
          record_edges-keeps Q hs (insert_edge (edge h r m) es) (λ g fs p. keep g fs (inr p))
            (keep h es (inl refl) (ground (arith, eq_iff h.resource r)) miss q) (ground arith)
    ]
  ]

  -- The loop stopped at a hold, against edges of which `Q` is true.
  pub record Stopped (Q : List Edge → Type 0) (hs : List Hold) (prior resource : String)
      : Type 0 where
    pub hold : Hold
    pub edges : List Edge
    pub among : Elem hold hs
    pub other : hold.resource ≢ r
    pub kept : Q edges
    pub hit : any_closes r m hold.resource hold.mode edges ≡ true
    pub prior_is : prior ≡ hold.resource
    pub resource_is : resource ≡ r

  Stopped-wider :
      (Q : List Edge → Type 0) (h : Hold) (hs : List Hold) (p q : String)
      → Stopped Q hs p q
      → Stopped Q (h ∷ hs) p q
  Stopped-wider Q h hs p q s = record {
    hold = s.hold;
    edges = s.edges;
    among = inr s.among;
    other = s.other;
    kept = s.kept;
    hit = s.hit;
    prior_is = s.prior_is;
    resource_is = s.resource_is;
  }

  -- A cycle is reported at some hold, against edges of which the same is true.
  pub record_edges-cycle :
      (Q : List Edge → Type 0) (hs : List Hold) (es : List Edge) (p q : String)
      → ((h : Hold) (fs : List Edge)
          → Elem h hs
          → h.resource ≢ r
          → any_closes r m h.resource h.mode fs ≡ false
          → Q fs
          → Q (insert_edge (edge h r m) fs))
      → Q es
      → record_edges r m hs es ≡ cycle p q
      → Stopped Q hs p q
  unfolding record_edges
  record_edges-cycle Q [] es p q keep z e = absurd (ground arith)
  record_edges-cycle Q (h ∷ hs) es p q keep z e = elim (Bool-cases (str_eq h.resource r)) [
    | inl same ↦
        Stopped-wider Q h hs p q
          (record_edges-cycle Q hs es p q (λ g fs i. keep g fs (inr i)) z (ground arith))
    | inr other ↦ elim (Bool-cases (any_closes r m h.resource h.mode es)) [
      | inl hit ↦ record {
        hold = h;
        edges = es;
        among = inl refl;
        other = ground (arith, eq_iff h.resource r);
        kept = z;
        hit = hit;
        prior_is = ground arith;
        resource_is = ground arith;
      }
      | inr miss ↦ Stopped-wider Q h hs p q (
          record_edges-cycle Q hs (insert_edge (edge h r m) es) p q (λ g fs i. keep g fs (inr i))
            (keep h es (inl refl) (ground (arith, eq_iff h.resource r)) miss z) (ground arith))
    ]
  ]

  pub record_edges-old :
      (x : Edge) (hs : List Hold) (es : List Edge) {es' : List Edge}
      → Elem x es
      → record_edges r m hs es ≡ go es'
      → Elem x es'
  record_edges-old x hs es =
      record_edges-keeps (Elem x) hs es
        (λ h fs _ _ _ q. (insert_edge-Elem x (edge h r m) fs).1 (inl q))

  -- Every other resource that is held gets its edge.
  pub record_edges-new :
      (x : Hold) (hs : List Hold) (es : List Edge) {es' : List Edge}
      → Elem x hs
      → x.resource ≢ r
      → record_edges r m hs es ≡ go es'
      → Elem (edge x r m) es'
  unfolding record_edges
  record_edges-new x [] es a o e = absurd a
  record_edges-new x (h ∷ hs) es a o e = elim (Bool-cases (str_eq h.resource r)) [
    | inl same ↦ record_edges-new x hs es (ground (arith, eq_iff h.resource r)) o (ground arith)
    | inr other ↦ elim (Bool-cases (any_closes r m h.resource h.mode es)) [
      | inl hit ↦ absurd (ground arith)
      | inr miss ↦ elim a [
        | inl here ↦
            record_edges-old (edge x r m) hs (insert_edge (edge h r m) es)
              ((insert_edge-Elem (edge x r m) (edge h r m) es).1 (inr (ground arith)))
              (ground arith)
        | inr there ↦ record_edges-new x hs (insert_edge (edge h r m) es) there o (ground arith)
      ]
    ]
  ]
