-- ===== src/Handler/Batches.antt =====
-- The order in which src/api06/changeset_upload/osmchange_handler.cpp processes an upload.
use openstreetmap_cgimap.Handler.Changes.{
  a_relation, a_way, a_node, kind_of_object, Object, process_groups, process_after, Change, kind_of,
  put, groups, IsAdmitted, process_object, process_all, put_in_buffer, put_all, process_object-eq,
}
use openstreetmap_cgimap.Prelude.{
  refl, ap, All, ◌≡◌, sym, ◌∙◌, inl, inr, List, [], ◌∷◌, arith, if◌then◌else◌, ℕ-Eq, String-Eq,
  Bool-cases,
}
use openstreetmap_cgimap.Prelude.Int.{ℤ, ℤ-Eq}
use openstreetmap_cgimap.Types.{
  op_create, op_modify, op_delete, op_undefined, Operation, >>=-assoc, >>=-cong, Result, ok, ◌>>=◌,
  Result-cases, ObjectType-Eq, Pair-Eq,
}
use openstreetmap_cgimap.Handler.{
  end_document, st_finished, Updaters, HandlerState, st_initial, state_beq, state_beq_iff, Handler,
  process_buffers, handle_new_state, with_updaters,
}

-- The changes of a group are of its kind, which the first one shows.
abbrev IsHeaded : {D : Type 0} → HandlerState × List (Change D) → Type 0
IsHeaded (k, []) = ⊥
IsHeaded (k, c ∷ g) = k ≡ kind_of c

put-IsHeaded :
    {D : Type 0} (c : Change D) (gs : List (HandlerState × List (Change D)))
    → All IsHeaded gs
    → All IsHeaded (put c gs)
put-IsHeaded c [] h = (refl, tt)
put-IsHeaded c ((k, g) ∷ gs) h = elim (Bool-cases (state_beq (kind_of c) k)) [
  | inl same ↦ rw same (sym ((state_beq_iff (kind_of c) k).0 same), h.1)
  | inr other ↦ rw other (refl, h)
]

groups-IsHeaded : {D : Type 0} (cs : List (Change D)) → All IsHeaded (groups cs)
unfolding groups
groups-IsHeaded [] = tt
groups-IsHeaded (c ∷ cs) = put-IsHeaded c (groups cs) (groups-IsHeaded cs)

module _ {D S : Type 0} (u : Updaters D S) (changeset : ℤ) where
  -- The groups are processed by their kind, as the handler does.
  process_by_kind : List (HandlerState × List (Change D)) → S → Result S
  process_by_kind [] s = ok s
  process_by_kind ((k, g) ∷ gs) s =
      put_all u changeset g s >>= process_buffers u k >>= process_by_kind gs

  process_after-eq :
      (o : Object D) (op : Operation) (s : S)
      → process_after u changeset o op s ≡ process_buffers u (kind_of_object o op) s
  unfolding process_after process_buffers
  process_after-eq (a_node n) op_create s = refl
  process_after-eq (a_way w) op_create s = refl
  process_after-eq (a_relation r) op_create s = refl
  process_after-eq (a_node n) op_delete s = refl
  process_after-eq (a_way w) op_delete s = refl
  process_after-eq (a_relation r) op_delete s = refl
  process_after-eq o op_modify s = sym (>>=-assoc (u.process_modify_nodes s) _ _)
  process_after-eq o op_undefined s = refl

  process_groups-eq :
      (gs : List (HandlerState × List (Change D))) (s : S)
      → All IsHeaded gs
      → process_groups u changeset gs s ≡ process_by_kind gs s
  unfolding process_groups process_by_kind
  process_groups-eq [] s h = refl
  process_groups-eq ((k, []) ∷ gs) s h = absurd h.0
  process_groups-eq ((k, c ∷ g) ∷ gs) s h =
      let buffers : (s' : S) → process_after u changeset c.object c.op s' ≡ process_buffers u k s' =
        λ s'. process_after-eq c.object c.op s' ∙ ap (λ k'. process_buffers u k' s') (sym h.0) in
      >>=-cong (put_all u changeset (c ∷ g) s >>= process_after u changeset c.object c.op)
        (λ s'. process_groups-eq gs s' h.1)
      ∙ ap (λ m. m >>= process_by_kind gs) (>>=-cong (put_all u changeset (c ∷ g) s) buffers)

  -- What is left to do when objects of one kind are in the buffers.
  continue : HandlerState → List (HandlerState × List (Change D)) → S → Result S
  continue k [] s = process_buffers u k s
  continue k ((k', g) ∷ gs) s =
      if state_beq k' k
      then process_by_kind ((k', g) ∷ gs) s
      else (process_buffers u k s >>= process_by_kind ((k', g) ∷ gs))

  -- What is done before objects of another kind are put in the buffers.
  abbrev before : HandlerState → HandlerState → S → Result S
  before k k' s = if state_beq k' k then ok s else process_buffers u k s

  continue-eq :
      (k k' : HandlerState) (g : List (Change D)) (gs : List (HandlerState × List (Change D)))
      (s : S)
      → continue k ((k', g) ∷ gs) s ≡ (before k k' s >>= process_by_kind ((k', g) ∷ gs))
  unfolding continue
  continue-eq k k' g gs s = ground arith

  put_in_buffer_one :
      (c : Change D) (k : HandlerState) (gs : List (HandlerState × List (Change D))) (s : S)
      → process_by_kind ((k, c ∷ []) ∷ gs) s ≡ (
          put_in_buffer u changeset c.object c.op c.if_unused s
          >>= process_buffers u k
          >>= process_by_kind gs)
  unfolding process_by_kind put_all
  put_in_buffer_one c k gs s =
      elim (Result-cases (put_in_buffer u changeset c.object c.op c.if_unused s)) [
        | inl (s', e) ↦ simp e
        | inr (x, e) ↦ simp e
      ]

  process_by_kind-put :
      (c : Change D) (gs : List (HandlerState × List (Change D))) (s : S)
      → process_by_kind (put c gs) s
        ≡ (put_in_buffer u changeset c.object c.op c.if_unused s >>= continue (kind_of c) gs)
  unfolding continue process_by_kind put_all
  process_by_kind-put c [] s = ground (arith, state_beq_iff (kind_of c) (kind_of c))
  process_by_kind-put c ((k, g) ∷ gs) s = elim (Bool-cases (state_beq (kind_of c) k)) [
    | inl same ↦ ground (arith, state_beq_iff (kind_of c) k)
    | inr other ↦ ground (
      arith,
      state_beq_iff (kind_of c) k,
      state_beq_iff k (kind_of c),
      put_in_buffer_one c (kind_of c) ((k, g) ∷ gs) s,
    )
  ]

  continue-head :
      (k : HandlerState) (c : Change D) (gs : List (HandlerState × List (Change D))) (s : S)
      → continue k (put c gs) s ≡ (before k (kind_of c) s >>= process_by_kind (put c gs))
  continue-head k c [] s = continue-eq k (kind_of c) (c ∷ []) [] s
  continue-head k c ((k', g) ∷ gs) s = elim (Bool-cases (state_beq (kind_of c) k')) [
    | inl same ↦
        ground (arith, state_beq_iff (kind_of c) k', continue-eq k (kind_of c) (c ∷ g) gs s)
    | inr other ↦ ground (arith, continue-eq k (kind_of c) (c ∷ []) ((k', g) ∷ gs) s)
  ]

  continue-put :
      (k : HandlerState) (c : Change D) (gs : List (HandlerState × List (Change D))) (s : S)
      → continue k (put c gs) s ≡ (
          before k (kind_of c) s
          >>= put_in_buffer u changeset c.object c.op c.if_unused
          >>= continue (kind_of c) gs)
  continue-put k c gs s =
      continue-head k c gs s
      ∙ >>=-cong (before k (kind_of c) s) (process_by_kind-put c gs)
      ∙ sym (
          >>=-assoc (before k (kind_of c) s) (put_in_buffer u changeset c.object c.op c.if_unused)
            (continue (kind_of c) gs))

  finished : S → Result (Handler S)
  finished s = ok (record { current_state = st_finished; updaters = s })

  handle_new_state-before :
      (k k' : HandlerState) (s : S)
      → handle_new_state u k' (record { current_state = k; updaters = s })
        ≡ (before k k' s >>= λ s'. ok (record { current_state = k'; updaters = s' }))
  unfolding handle_new_state
  handle_new_state-before k k' s = ground (arith, state_beq_iff k' k)

  with_updaters-bind :
      (f : S → Result S) (k : HandlerState) (s : S) (g : Handler S → Result (Handler S))
      → (with_updaters u f (record { current_state = k; updaters = s }) >>= g)
        ≡ (f s >>= λ s'. g (record { current_state = k; updaters = s' }))
  with_updaters-bind f k s g = >>=-assoc (f s) _ g

  process_object-step :
      (c : Change D) (k : HandlerState) (s : S)
      → IsAdmitted changeset c
      → process_object u changeset c.object c.op c.if_unused
          (record { current_state = k; updaters = s })
        ≡ (before k (kind_of c) s >>= put_in_buffer u changeset c.object c.op c.if_unused >>= λ s'.
            ok (record { current_state = kind_of c; updaters = s' }))
  process_object-step c k s (d, e) = elim (Result-cases (before k (kind_of c) s)) [
    | inl (s1, b) ↦ simp (
      process_object-eq u changeset c.object c.op c.if_unused
          (record { current_state = k; updaters = s }) d e,
      handle_new_state-before k (kind_of c) s,
      b,
    )
    | inr (x, b) ↦ simp (
      process_object-eq u changeset c.object c.op c.if_unused
          (record { current_state = k; updaters = s }) d e,
      handle_new_state-before k (kind_of c) s,
      b,
    )
  ]

  end_document-eq :
      (k : HandlerState) (s : S)
      → end_document u (record { current_state = k; updaters = s })
        ≡ (process_buffers u k s >>= finished)
  unfolding end_document finished
  end_document-eq st_finished s = refl
  end_document-eq k s = refl

  process_all-continue :
      (k : HandlerState) (cs : List (Change D)) (s : S)
      → All (IsAdmitted changeset) cs
      → (process_all u changeset cs (record { current_state = k; updaters = s }) >>= end_document u)
        ≡ (continue k (groups cs) s >>= finished)
  unfolding process_all groups continue
  process_all-continue k [] s h = end_document-eq k s
  process_all-continue k (c ∷ cs) s ((d, e), h) =
      ap (λ m. m >>= process_all u changeset cs >>= end_document u)
        (process_object-step c k s (d, e))
      ∙ (elim (Result-cases
          (before k (kind_of c) s >>= put_in_buffer u changeset c.object c.op c.if_unused)) [
            | inl (s', b) ↦
                simp (b, continue-put k c (groups cs) s, process_all-continue (kind_of c) cs s' h)
            | inr (x, b) ↦ simp (b, continue-put k c (groups cs) s)
          ])

  continue-initial :
      (gs : List (HandlerState × List (Change D))) (s : S)
      → continue st_initial gs s ≡ process_by_kind gs s
  unfolding continue process_by_kind process_buffers
  continue-initial [] s = refl
  continue-initial ((k, g) ∷ gs) s = ground arith

  -- An upload is processed group by group: the changes of a group are put in the buffers in their
  -- order, then the buffers are processed once, as the kind of the group demands, before the next
  -- group begins.
  -- The condition is that every change has a known operation and names the changeset.
  pub process_all-process_groups :
      (cs : List (Change D)) (s : S)
      → All (IsAdmitted changeset) cs
      → (process_all u changeset cs (record { current_state = st_initial; updaters = s })
          >>= end_document u)
        ≡ (process_groups u changeset (groups cs) s >>= λ s'.
            ok (record { current_state = st_finished; updaters = s' }))
  unfolding finished
  process_all-process_groups cs s h =
      process_all-continue st_initial cs s h
      ∙ ap (λ m. m >>= finished)
          (continue-initial (groups cs) s
            ∙ sym (process_groups-eq (groups cs) s (groups-IsHeaded cs)))
