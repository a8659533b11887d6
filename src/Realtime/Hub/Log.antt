-- ===== src/Realtime/Hub/Log.antt =====
-- Publishing, seen from outside: which events the hub accepts, and what it keeps for a replay.
use vehicle_intelligence.Prelude.{
  ℕ, ◌-◌, Str, arith, ◌≡◌, refl, sym, ap, ◌∙◌, if◌then◌else◌, List, [], ◌∷◌, ◌++◌, Bool, true,
  false, not, member, Bool-cases, inl, inr,
}
use vehicle_intelligence.Realtime.Hub.{
  RealtimeHub, remember, publish, received, distribute, new_hub,
}
use vehicle_intelligence.Realtime.Hub.Window.{
  latest, latest-append, drop_nil, ids_of, IsHistory, remember_lem,
}

module _ {E : Type 0} (id_of : E → Str) where
  -- The abstract hub: the log of all accepted events. An event is known if its id is that of one of
  -- the latest n; else it is accepted.
  abbrev pub is_known : ℕ → List E → E → Bool
  is_known n log e = member (id_of e) (ids_of id_of (latest n log))

  abbrev pub logged : ℕ → List E → E → List E
  logged n log e = if is_known n log e then log else log ++ e ∷ []

  abbrev pub log_of : ℕ → List E → List (ℕ × E) → List E
  log_of n log [] = log
  log_of n log ((now, e) ∷ es) = log_of n (logged n log e) es

  abbrev pub accepted_of : ℕ → List E → List (ℕ × E) → List Bool
  accepted_of n log [] = []
  accepted_of n log ((now, e) ∷ es) = not (is_known n log e) ∷ accepted_of n (logged n log e) es

  -- publish for each of the events, at their times
  abbrev pub publish_each : List (ℕ × E) → RealtimeHub E → List Bool × RealtimeHub E
  publish_each [] h = ([], h)
  publish_each ((now, e) ∷ es) h =
      let (returned, after) = publish id_of now e h in
      let (results, last) = publish_each es after in (returned ∷ results, last)

  pub record IsWindow (n : ℕ) (log : List E) (h : RealtimeHub E) : Type 0 where
    pub history : IsHistory id_of h
    pub window : h.history ≡ latest n log
    pub size : h.replay_size ≡ n

  -- How publish answers, and what it leaves.
  abbrev Published : ℕ → List E → E → Bool × RealtimeHub E → Type 0
  Published n log e result =
      (result.0 ≡ not (is_known n log e)) × IsWindow n (logged n log e) result.1

  received-IsHistory :
      (now : ℕ) (h : RealtimeHub E) → IsHistory id_of h → IsHistory id_of (received id_of now h)
  received-IsHistory now h w = record { ids = w.ids; unique = w.unique; bounded = w.bounded }

  distribute-IsWindow :
      (n : ℕ) (log : List E) (e : E) (h : RealtimeHub E)
      → IsWindow n log h
      → IsWindow n log (distribute id_of e h)
  distribute-IsWindow n log e h w = record {
    history = record {
      ids = w.history.ids;
      unique = w.history.unique;
      bounded = w.history.bounded;
    };
    window = w.window;
    size = w.size;
  }

  publish-Published :
      (n : ℕ) (log : List E) (now : ℕ) (e : E) (h : RealtimeHub E)
      → IsWindow n log h
      → Published n log e (publish id_of now e h)
  unfolding publish
  publish-Published n log now e h w =
      let same : member (id_of e) h.history_ids ≡ is_known n log e =
        ap (member (id_of e)) (w.history.ids ∙ ap (ids_of id_of) w.window) in
      elim (Bool-cases (is_known n log e)) [
        | inl known ↦
            let held : member (id_of e) h.history_ids ≡ true = same ∙ known in
            rw (held, publish, known)
              (
                refl,
                record {
                  history = record {
                    ids = w.history.ids;
                    unique = w.history.unique;
                    bounded = w.history.bounded;
                  };
                  window = w.window;
                  size = w.size;
                },
              )
        | inr new ↦
            let fresh : member (id_of e) h.history_ids ≡ false = same ∙ new in
            let (history, grown, size) =
              remember_lem id_of e (received id_of now h) (received-IsHistory now h w.history)
                fresh in
            rw (fresh, publish, new)
              (
                refl,
                distribute-IsWindow n (log ++ e ∷ []) e (remember id_of e (received id_of now h))
                    (record {
                      history = history;
                      window = grown ∙ rw (w.size, w.window) (sym (latest-append n log e));
                      size = size ∙ w.size;
                    }),
              )
      ]

  each-IsWindow :
      (n : ℕ) (es : List (ℕ × E)) (log : List E) (h : RealtimeHub E)
      → IsWindow n log h
      → ((publish_each es h).0 ≡ accepted_of n log es)
        × IsWindow n (log_of n log es) (publish_each es h).1
  each-IsWindow n [] log h w = (refl, w)
  each-IsWindow n ((now, e) ∷ es) log h w =
      let (answer, next) = publish-Published n log now e h w in
      let (answers, last) = each-IsWindow n es (logged n log e) (publish id_of now e h).1 next in
      (rw (answer, answers) refl, last)

  -- The hub refines the log of accepted events: for any sequence of events published to a new hub,
  -- publish returns true exactly for the events whose id is not one of the latest replay_size of the
  -- log, its history is the latest replay_size events of the log, in order, and its set of ids is
  -- theirs, without repetition.
  pub publish_each-refines :
      (queue_size replay_size : ℕ) (es : List (ℕ × E))
      → let (returned, h) = publish_each es (new_hub queue_size replay_size) in
        (returned ≡ accepted_of replay_size [] es)
        × (h.history ≡ latest replay_size (log_of replay_size [] es))
        × IsHistory id_of h
  unfolding new_hub
  publish_each-refines queue_size replay_size es =
      let (answers, w) = each-IsWindow replay_size es [] (new_hub queue_size replay_size) (record {
        history = record { ids = refl; unique = tt; bounded = omega arith };
        window = sym (drop_nil (0 - replay_size));
        size = refl;
      }) in
      (answers, w.window, w.history)
