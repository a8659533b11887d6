-- ===== src/Topology/History.antt =====
-- Sequences of calls of CameraTopologyService (application/topology.py).
use vehicle_intelligence.Prelude.{
  ℕ, sym, Str, Dict, get, List, [], ◌∷◌, Bool, true, false, Result, ok, err, ◌>>=◌, Result-cases,
  Bool-cases, inl, inr, arith,
}
use mathlib.Core.Path.{ap, ◌∙◌}
use vehicle_intelligence.Topology.{
  CameraTopologyEdge, create, replace, delete, TopologyCreate, TopologyUpdate, create_edge,
  update_edge, delete_edge, post_init, new_edge, updated_edge, stored, required, checked_revision,
}
use vehicle_intelligence.Topology.Edges.{
  IsTopology, create-IsTopology, replace-IsTopology, delete-IsTopology, after_replace,
  post_init-same,
}

-- A call with the time of the service's clock; an update also has the edges as it read them, which
-- another call may have changed since.
pub data Operation (M : Type 0) : Type 0 where
  create_call : TopologyCreate M → ℕ → Operation M
  update_call : Dict (CameraTopologyEdge M) → Str → TopologyUpdate M → ℕ → Operation M
  delete_call : Str → Operation M

module _ {M : Type 0} where
  -- the edges after a call, also if it raises
  abbrev pub after_store :
      Dict (CameraTopologyEdge M)
      → Result (CameraTopologyEdge M × Dict (CameraTopologyEdge M))
      → Dict (CameraTopologyEdge M)
  after_store edges (ok (edge, edges')) = edges'
  after_store edges (err e) = edges

  abbrev pub after_delete :
      Dict (CameraTopologyEdge M)
      → Result (Dict (CameraTopologyEdge M))
      → Dict (CameraTopologyEdge M)
  after_delete edges (ok edges') = edges'
  after_delete edges (err e) = edges

  unfoldable pub apply : Operation M → Dict (CameraTopologyEdge M) → Dict (CameraTopologyEdge M)
  apply (create_call command now) edges = after_store edges (create_edge edges command now)
  apply (update_call seen edge_id command now) edges =
      after_store edges (update_edge seen edges edge_id command now)
  apply (delete_call edge_id) edges = after_delete edges (delete_edge edges edge_id)

  unfoldable pub run :
      List (Operation M) → Dict (CameraTopologyEdge M) → Dict (CameraTopologyEdge M)
  run [] edges = edges
  run (o ∷ os) edges = run os (apply o edges)

  stored-IsTopology :
      (edges : Dict (CameraTopologyEdge M)) (edge : CameraTopologyEdge M)
      (outcome : Bool × Dict (CameraTopologyEdge M))
      → IsTopology edges
      → IsTopology outcome.1
      → IsTopology (after_store edges (stored edge outcome))
  stored-IsTopology edges edge (true, edges') h k = k
  stored-IsTopology edges edge (false, edges') h k = h

  create_edge-IsTopology :
      (edges : Dict (CameraTopologyEdge M)) (edge : CameraTopologyEdge M)
      → IsTopology edges
      → IsTopology (after_store edges (post_init edge >>= (λ e. stored e (create edges e))))
  create_edge-IsTopology edges edge h = elim (Result-cases (post_init edge)) [
    | inr (x, raised) ↦ rw raised h
    | inl (e, valid) ↦ rw valid (
        stored-IsTopology edges e (create edges e) h
          (create-IsTopology edges e h (sym (ap post_init (post_init-same edge e valid)) ∙ valid)))
  ]

  replaced-IsTopology :
      (edges : Dict (CameraTopologyEdge M)) (edge : CameraTopologyEdge M)
      (outcome : Result (Bool × Dict (CameraTopologyEdge M)))
      → IsTopology edges
      → IsTopology (after_replace edges outcome)
      → IsTopology (after_store edges (outcome >>= (λ o. stored edge o)))
  replaced-IsTopology edges edge (ok outcome) h k = stored-IsTopology edges edge outcome h k
  replaced-IsTopology edges edge (err x) h k = h

  update_edge-IsTopology :
      (edges : Dict (CameraTopologyEdge M)) (edge : CameraTopologyEdge M) (revision : ℕ)
      → IsTopology edges
      → IsTopology (
          after_store edges
            (post_init edge >>= (λ e. replace edges e revision >>= (λ o. stored e o))))
  update_edge-IsTopology edges edge revision h = elim (Result-cases (post_init edge)) [
    | inr (x, raised) ↦ rw raised h
    | inl (e, valid) ↦ rw valid (
        replaced-IsTopology edges e (replace edges e revision) h (
          replace-IsTopology edges e revision h
            (sym (ap post_init (post_init-same edge e valid)) ∙ valid)))
  ]

  update_call-IsTopology :
      (current : Result (CameraTopologyEdge M)) (edges : Dict (CameraTopologyEdge M))
      (command : TopologyUpdate M) (now : ℕ)
      → IsTopology edges
      → IsTopology (
          after_store edges (
            current >>= (λ c. checked_revision c command.revision >>= (λ _.
              post_init (updated_edge c command now)
              >>= (λ e. replace edges e c.revision >>= (λ o. stored e o))))))
  update_call-IsTopology (err x) edges command now h = h
  update_call-IsTopology (ok c) edges command now h =
      elim (Result-cases (checked_revision c command.revision)) [
        | inr (x, raised) ↦ rw raised h
        | inl (d, same) ↦
            rw same (update_edge-IsTopology edges (updated_edge c command now) c.revision h)
      ]

  delete_call-IsTopology :
      (edges : Dict (CameraTopologyEdge M)) (edge_id : Str)
      → IsTopology edges
      → IsTopology (after_delete edges (delete_edge edges edge_id))
  unfolding delete_edge
  delete_call-IsTopology edges edge_id h = elim (Bool-cases (delete edges edge_id).0) [
    | inl deleted ↦ rw deleted (delete-IsTopology edges edge_id h)
    | inr unknown ↦ rw unknown h
  ]

  apply-IsTopology :
      (o : Operation M) (edges : Dict (CameraTopologyEdge M))
      → IsTopology edges
      → IsTopology (apply o edges)
  unfolding apply create_edge update_edge
  apply-IsTopology (create_call command now) edges h =
      create_edge-IsTopology edges (new_edge command now) h
  apply-IsTopology (update_call seen edge_id command now) edges h =
      update_call-IsTopology (required (get seen edge_id)) edges command now h
  apply-IsTopology (delete_call edge_id) edges h = delete_call-IsTopology edges edge_id h

  run-IsTopology_from :
      (os : List (Operation M)) (edges : Dict (CameraTopologyEdge M))
      → IsTopology edges
      → IsTopology (run os edges)
  unfolding run
  run-IsTopology_from [] edges h = h
  run-IsTopology_from (o ∷ os) edges h =
      run-IsTopology_from os (apply o edges) (apply-IsTopology o edges h)

  -- After any sequence of calls on an empty repository, also of calls that raise and of updates that
  -- read the edges at an earlier time: each edge stands under its own id and passes the checks of
  -- its class, and no two edges lead from one camera to the same other camera.
  pub run-IsTopology : (os : List (Operation M)) → IsTopology (run os [])
  run-IsTopology os = run-IsTopology_from os [] (record {
    under_id = λ k e found. ground arith;
    valid = λ k e found. ground arith;
    alone = λ k j e f found₁ found₂ route. ground arith;
  })
