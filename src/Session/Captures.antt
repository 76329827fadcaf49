-- ===== src/Session/Captures.antt =====
-- What a capture session returns.
use laplace.Prelude.{ℕ, ◌≡◌, refl, ◌∙◌, ap, none, some, List, [], ◌∷◌, ◌++◌, map, arith}
use laplace.Event.{ProbeEvent}
use mathlib.Core.List.{append-nil, append_assoc}
use laplace.Session.Sinks.{Process, local_sender, emit, begin, finish, received}

module _ {J : Type 0} where
  pub received-append :
      (tx : ℕ) (xs ys : List (ℕ × ProbeEvent J))
      → received tx (xs ++ ys) ≡ received tx xs ++ received tx ys
  unfolding received
  received-append tx [] ys = refl
  received-append tx ((c, e) ∷ xs) ys = ground (arith, received-append tx xs ys)

  -- Events that threads emit, in the order in which they do.
  unfoldable pub emit_all : List (ℕ × ProbeEvent J) → Process J → Process J
  emit_all [] s = s
  emit_all ((os, e) ∷ rest) s = emit_all rest (emit os e s)

  -- No sink comes before that of the session.
  pub record NoLegacy (tx : ℕ) (s : Process J) : Type 0 where
    pub no_local : (os : ℕ) → local_sender os s ≡ none
    pub no_global : s.global_probe_sender ≡ none
    pub session : s.session_sender ≡ some tx

  pub emit-sent :
      (os tx : ℕ) (e : ProbeEvent J) (s : Process J)
      → NoLegacy tx s
      → emit os e s ≡ record s { sent = s.sent ++ ((tx, e) ∷ []) }
  unfolding emit
  emit-sent os tx e s l = ground (arith, l.no_local os, l.no_global, l.session)

  pub NoLegacy-sent :
      (tx : ℕ) (s : Process J) (log : List (ℕ × ProbeEvent J))
      → NoLegacy tx s
      → NoLegacy tx (record s { sent = log })
  unfolding local_sender
  NoLegacy-sent tx s log l = record {
    no_local = l.no_local;
    no_global = l.no_global;
    session = l.session;
  }

  pub received-one : (tx : ℕ) (e : ProbeEvent J) → received tx ((tx, e) ∷ []) ≡ e ∷ []
  unfolding received
  received-one tx e = ground arith

  pub received-emit :
      (os tx : ℕ) (e : ProbeEvent J) (s : Process J)
      → NoLegacy tx s
      → NoLegacy tx (emit os e s)
        × (received tx (emit os e s).sent ≡ received tx s.sent ++ (e ∷ []))
  received-emit os tx e s l = rw (emit-sent os tx e s l) (
    NoLegacy-sent tx s (s.sent ++ ((tx, e) ∷ [])) l,
    received-append tx s.sent ((tx, e) ∷ [])
        ∙ ap (λ z. received tx s.sent ++ z) (received-one tx e),
  )

  emit_all-received :
      (tx : ℕ) (events : List (ℕ × ProbeEvent J)) (s : Process J)
      → NoLegacy tx s
      → received tx (emit_all events s).sent ≡ received tx s.sent ++ map (λ p. p.1) events
  unfolding emit_all
  emit_all-received tx [] s l = rw append-nil
  emit_all-received tx ((os, e) ∷ events) s l =
      ap (λ z. received tx (emit_all events z).sent) (emit-sent os tx e s l)
      ∙ emit_all-received tx events (record s { sent = s.sent ++ ((tx, e) ∷ []) })
          (NoLegacy-sent tx s (s.sent ++ ((tx, e) ∷ [])) l)
      ∙ simp (received-append, received-one, append_assoc)

  emit_all-session :
      (tx : ℕ) (events : List (ℕ × ProbeEvent J)) (s : Process J)
      → NoLegacy tx s
      → NoLegacy tx (emit_all events s)
  unfolding emit_all
  emit_all-session tx [] s l = l
  emit_all-session tx ((os, e) ∷ events) s l =
      emit_all-session tx events (emit os e s)
        (rw (emit-sent os tx e s l) (NoLegacy-sent tx s (s.sent ++ ((tx, e) ∷ [])) l))

  -- Where no thread has a sink of its own and there is no global one, a capture session returns all
  -- the events that any threads emit between its beginning and its end, in the order in which they
  -- were emitted, and an event that is emitted after the end goes nowhere.
  pub finish-emit_all :
      (tx : ℕ) (events : List (ℕ × ProbeEvent J)) (s : Process J)
      → ((os : ℕ) → local_sender os s ≡ none)
      → s.global_probe_sender ≡ none
      → received tx s.sent ≡ []
      → let (after, captured) = finish tx (emit_all events (begin tx s)) in
        (captured ≡ map (λ p. p.1) events) × ((os : ℕ) (e : ProbeEvent J) → emit os e after ≡ after)
  unfolding finish begin emit
  finish-emit_all tx events s no_local no_global unused = (
    (emit_all-received tx events (begin tx s) l ∙ rw unused refl),
    (λ os e. ground (arith, (after-NoLegacy).no_local os, (after-NoLegacy).no_global)),
  )
    where
      l : NoLegacy tx (begin tx s)
      l = record { no_local = no_local; no_global = no_global; session = refl }

      after-NoLegacy : NoLegacy tx (emit_all events (begin tx s))
      after-NoLegacy = emit_all-session tx events (begin tx s) l
