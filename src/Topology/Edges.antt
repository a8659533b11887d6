-- ===== src/Topology/Edges.antt =====
-- At most one edge leads from one camera to another.
use vehicle_intelligence.Prelude.{
  ℕ, ◌≡◌, sym, ap, ◌∙◌, arith, Str, ◌==◌, eq_iff, Dict, get, put, contains, values, any, eqb, not,
  put-cases, pop-kept, some, [], ◌∷◌, Bool, true, false, ◌&&◌, Result, ok, err, Bool-cases, inl,
  inr, ◌+◌,
}
use mathlib.Core.Path.{subst}
use vehicle_intelligence.Topology.{
  CameraTopologyEdge, same_route, create, replace, delete, has_revision, post_init,
}

-- What no stored value satisfies, a value under a key does not satisfy.
any-get :
    {V : Type 0} (p : V → Bool) (d : Dict V) (k : Str) (v : V)
    → any p (values d) ≡ false
    → get d k ≡ some v
    → p v ≡ false
any-get p [] k v h found = ground (arith, found)
any-get p ((j, w) ∷ d) k v h found = ground (arith, any-get p d k v)

module _ {M : Type 0} where
  -- An edge stands under its id, connects two cameras, and has its route alone.
  pub record IsTopology (edges : Dict (CameraTopologyEdge M)) : Type 0 where
    pub under_id : (k : Str) (e : CameraTopologyEdge M) → get edges k ≡ some e → e.id ≡ k
    pub valid : (k : Str) (e : CameraTopologyEdge M) → get edges k ≡ some e → post_init e ≡ ok e
    pub alone :
        (k j : Str) (e f : CameraTopologyEdge M)
        → get edges k ≡ some e
        → get edges j ≡ some f
        → same_route e f ≡ true
        → k ≡ j

  same_route_sym : (e f : CameraTopologyEdge M) → same_route e f ≡ true → same_route f e ≡ true
  unfolding same_route
  same_route_sym e f h = ground (
    arith,
    h,
    eq_iff e.from_camera_id f.from_camera_id,
    eq_iff f.from_camera_id e.from_camera_id,
    eq_iff e.to_camera_id f.to_camera_id,
    eq_iff f.to_camera_id e.to_camera_id,
  )

  -- An edge may be stored if no edge with another id has its route.
  put-IsTopology :
      (edges : Dict (CameraTopologyEdge M)) (edge : CameraTopologyEdge M)
      → IsTopology edges
      → post_init edge ≡ ok edge
      → ((k : Str) (e : CameraTopologyEdge M)
          → get edges k ≡ some e
          → same_route e edge ≡ true
          → k ≡ edge.id)
      → IsTopology (put edges edge.id edge)
  put-IsTopology edges edge h good free = record {
    under_id = λ k e found. elim (put-cases edges edge.id edge k e found) [
      | inl (at, is_new) ↦ sym (ap (λ x. x.id) is_new) ∙ at
      | inr old ↦ h.under_id k e old
    ];
    valid = λ k e found. elim (put-cases edges edge.id edge k e found) [
      | inl (at, is_new) ↦ subst (λ x. post_init x ≡ ok x) is_new good
      | inr old ↦ h.valid k e old
    ];
    alone = λ k j e f found₁ found₂ route. elim (put-cases edges edge.id edge k e found₁) [
      | inl (at, is_new) ↦ elim (put-cases edges edge.id edge j f found₂) [
        | inl (at', is_new') ↦ sym at ∙ at'
        | inr old ↦
            sym at
            ∙ sym (free j f old (same_route_sym edge f (ap (λ x. same_route x f) is_new ∙ route)))
      ]
      | inr old ↦ elim (put-cases edges edge.id edge j f found₂) [
        | inl (at, is_new) ↦ free k e old (ap (λ x. same_route e x) is_new ∙ route) ∙ at
        | inr old' ↦ h.alone k j e f old old' route
      ]
    ];
  }

  pub create-IsTopology :
      (edges : Dict (CameraTopologyEdge M)) (edge : CameraTopologyEdge M)
      → IsTopology edges
      → post_init edge ≡ ok edge
      → IsTopology (create edges edge).1
  unfolding create
  create-IsTopology edges edge h good = elim (Bool-cases (contains edges edge.id)) [
    | inl known ↦ rw known h
    | inr fresh ↦ elim (Bool-cases (any (λ x. same_route x edge) (values edges))) [
      | inl taken ↦ rw (fresh, taken) h
      | inr unused ↦
          rw (fresh, unused)
            (put-IsTopology edges edge h good
              (λ k e old route. absurd (conflict k e old route unused)))
    ]
  ]
    where
      conflict :
          (k : Str) (e : CameraTopologyEdge M)
          → get edges k ≡ some e
          → same_route e edge ≡ true
          → any (λ x. same_route x edge) (values edges) ≡ false
          → ⊥
      conflict k e old route unused =
          ground (arith, any-get (λ x. same_route x edge) edges k e unused old, route)

  -- the edges after a call of `replace`, also if it raises
  abbrev pub after_replace :
      Dict (CameraTopologyEdge M)
      → Result (Bool × Dict (CameraTopologyEdge M))
      → Dict (CameraTopologyEdge M)
  after_replace edges (ok (done, edges')) = edges'
  after_replace edges (err e) = edges

  pub replace-IsTopology :
      (edges : Dict (CameraTopologyEdge M)) (edge : CameraTopologyEdge M) (revision : ℕ)
      → IsTopology edges
      → post_init edge ≡ ok edge
      → IsTopology (after_replace edges (replace edges edge revision))
  unfolding replace
  replace-IsTopology edges edge revision h good =
      elim (Bool-cases (eqb edge.revision (revision + 1))) [
        | inr wrong ↦ rw wrong h
        | inl next ↦ elim (Bool-cases (has_revision (get edges edge.id) revision)) [
          | inr stale ↦ rw (next, stale) h
          | inl current ↦ elim (Bool-cases (any other_on_route (values edges))) [
            | inl taken ↦ rw (next, current, taken) h
            | inr unused ↦
                rw (next, current, unused)
                  (put-IsTopology edges edge h good
                    (λ k e old route. sym (h.under_id k e old) ∙ same_id k e old route unused))
          ]
        ]
      ]
    where
      other_on_route : CameraTopologyEdge M → Bool
      other_on_route x = not (x.id == edge.id) && same_route x edge

      same_id :
          (k : Str) (e : CameraTopologyEdge M)
          → get edges k ≡ some e
          → same_route e edge ≡ true
          → any other_on_route (values edges) ≡ false
          → e.id ≡ edge.id
      same_id k e old route unused =
          ground (arith, any-get other_on_route edges k e unused old, route, eq_iff e.id edge.id)

  pub delete-IsTopology :
      (edges : Dict (CameraTopologyEdge M)) (edge_id : Str)
      → IsTopology edges
      → IsTopology (delete edges edge_id).1
  unfolding delete
  delete-IsTopology edges edge_id h = record {
    under_id = λ k e found. h.under_id k e (pop-kept edges edge_id k e found);
    valid = λ k e found. h.valid k e (pop-kept edges edge_id k e found);
    alone = λ k j e f found₁ found₂ route.
        h.alone k j e f (pop-kept edges edge_id k e found₁) (pop-kept edges edge_id j f found₂)
          route;
  }

  pub post_init-same : (e f : CameraTopologyEdge M) → post_init e ≡ ok f → e ≡ f
  unfolding post_init
  post_init-same e f h = ground (arith, h)
