-- ===== src/Runtime/System/Steps.antt =====
-- The steps of a call keep the invariant.
use rdmas.Base.{
  ℕ, ◌+◌, ◌<◌, ◌≤◌, ◌≡◌, refl, sym, ap, subst, ◌∙◌, ◌≢◌, inl, [], ◌∷◌, Option, none, some, arith,
  ℕ_discrete,
}
use rdmas.Runtime.Poller.{dropped, Shared, put, deliver}
use rdmas.Runtime.Ops.{drop_sender, register, unregister}
use rdmas.Runtime.System.{Stage, idle, rejected, numbered, registered, posted, refused}
use rdmas.Runtime.System.Laws.{
  put_self, put_ne, id_of, listed_id, CallIsSound, id-lt, CallIsSound-keep, IsSound,
}

pub listed-id : (st : Stage) (w : ℕ) → listed_id st ≡ some w → id_of st ≡ some w
listed-id idle w e = cc
listed-id rejected w e = cc
listed-id (numbered w') w e = cc
listed-id (registered w') w e = e
listed-id (posted w') w e = e
listed-id (refused w') w e = e

drop_sender-pending : (o : Option ℕ) (sh : Shared) → (drop_sender o sh).pending ≡ sh.pending
unfolding drop_sender deliver
drop_sender-pending none sh = refl
drop_sender-pending (some k) sh = refl

drop_sender-delivered :
    (o : Option ℕ) (sh : Shared) (j : ℕ)
    → ((k : ℕ) → o ≡ some k → j ≢ k)
    → (drop_sender o sh).delivered j ≡ sh.delivered j
unfolding drop_sender deliver
drop_sender-delivered none sh j other = refl
drop_sender-delivered (some k) sh j other =
    put_ne sh.delivered k (dropped ∷ sh.delivered k) j (other k refl)

-- Ids stay unique when one call changes its stage to one whose id no other call has.
unique-put :
    (stage : ℕ → Stage) (k : ℕ) (st : Stage)
    → ((a b w : ℕ) → id_of (stage a) ≡ some w → id_of (stage b) ≡ some w → a ≡ b)
    → ((j w : ℕ) → j ≢ k → id_of (stage j) ≡ some w → id_of st ≢ some w)
    → (a b w : ℕ) → id_of (put stage k st a) ≡ some w
    → id_of (put stage k st b) ≡ some w
    → a ≡ b
unique-put stage k st unique apart a b w ea eb = elim (ℕ_discrete a k) [
  | yes p ↦ elim (ℕ_discrete b k) [
    | yes q ↦ p ∙ sym q
    | no nq ↦
        absurd
          (apart b w nq (rw (put_ne stage k st b nq) at eb) (rw (p, put_self stage k st) at ea))
  ]
  | no np ↦ elim (ℕ_discrete b k) [
    | yes q ↦
        absurd
          (apart a w np (rw (put_ne stage k st a np) at ea) (rw (q, put_self stage k st) at eb))
    | no nq ↦ unique a b w (rw (put_ne stage k st a np) at ea) (rw (put_ne stage k st b nq) at eb)
  ]
]

module _ (n : ℕ) (sh : Shared) (stage : ℕ → Stage) (sound : IsSound n sh stage) where
  -- A stage of the same id keeps ids apart.
  apart :
      (k : ℕ) (st : Stage)
      → ((w : ℕ) → id_of st ≡ some w → id_of (stage k) ≡ some w)
      → (j w : ℕ) → j ≢ k
      → id_of (stage j) ≡ some w
      → id_of st ≢ some w
  apart k st same j w ne e e' = ne (sound.unique j k w e (same w e'))

  -- The other calls are sound when their entries and their channels are kept.
  others_sound :
      (n' : ℕ) (sh' : Shared) (k : ℕ) (st : Stage)
      → n ≤ n'
      → ((j w : ℕ) → j ≢ k → id_of (stage j) ≡ some w → sh'.pending w ≡ sh.pending w)
      → ((j : ℕ) → j ≢ k → sh'.delivered j ≡ sh.delivered j)
      → CallIsSound n' sh' k st
      → (j : ℕ) → CallIsSound n' sh' j (put stage k st j)
  others_sound n' sh' k st le entries channels mine j = elim (ℕ_discrete j k) [
    | yes p ↦ rw (p, put_self stage k st) mine
    | no ne ↦ rw (put_ne stage k st j ne) (
        CallIsSound-keep n n' sh sh' j (stage j) le (λ w. entries j w ne) (channels j ne)
          (sound.calls j))
  ]

  unlisted : (k : ℕ) → listed_id (stage k) ≡ none → (w : ℕ) → sh.pending w ≢ some k
  unlisted k e w listed = cc (e, sound.owned w k listed)

  -- A sender in the map under the id of call `k` is that of `k`.
  owner : (k w j : ℕ) → id_of (stage k) ≡ some w → sh.pending w ≡ some j → j ≡ k
  owner k w j e listed = sound.unique j k w (listed-id (stage j) w (sound.owned w j listed)) e

  pub other_id :
      (k w j w' : ℕ) → id_of (stage k) ≡ some w → j ≢ k → id_of (stage j) ≡ some w' → w' ≢ w
  other_id k w j w' e ne ej p =
      ne (sound.unique j k w (subst (λ (x : ℕ). id_of (stage j) ≡ some x) p ej) e)

  pub number-IsSound : (k : ℕ) → stage k ≡ idle → IsSound (n + 1) sh (put stage k (numbered n))
  number-IsSound k e = record {
    calls =
        others_sound (n + 1) sh k (numbered n) (omega arith) (λ j w ne ej. refl) (λ j ne. refl)
          (omega arith, subst (CallIsSound n sh k) e (sound.calls k));
    unique = unique-put stage k (numbered n) sound.unique (λ j w ne ej ew.
        let below : w < n = id-lt n sh j w (stage j) (sound.calls j) ej in
        let same : n ≡ w = cc ew in omega (arith, below, same));
    owned = λ w j listed. elim (ℕ_discrete j k) [
      | yes p ↦
          absurd (unlisted k (ap listed_id e) w (subst (λ (x : ℕ). sh.pending w ≡ some x) p listed))
      | no ne ↦ rw (put_ne stage k (numbered n) j ne) (sound.owned w j listed)
    ];
  }

  pub insert-IsSound :
      (k w : ℕ) → stage k ≡ numbered w → IsSound n (register w k sh) (put stage k (registered w))
  unfolding register
  insert-IsSound k w e =
      let mine : id_of (stage k) ≡ some w = ap id_of e in
      let nobody : (j : ℕ) → sh.pending w ≢ some j = λ j listed.
        unlisted k (ap listed_id e) w
          (subst (λ (x : ℕ). sh.pending w ≡ some x) (owner k w j mine listed) listed) in
      let channel : (j : ℕ) → (register w k sh).delivered j ≡ sh.delivered j =
        λ j. drop_sender-delivered (sh.pending w) sh j (λ k' p. absurd (nobody k' p)) in
      let before : (w < n) × (sh.delivered k ≡ []) = subst (CallIsSound n sh k) e (sound.calls k) in
      record {
        calls =
            others_sound n (register w k sh) k (registered w) (omega arith)
              (λ j w' ne ej. put_ne sh.pending w (some k) w' (other_id k w j w' mine ne ej))
              (λ j ne. channel j)
              (before.0, inl (put_self sh.pending w (some k), channel k ∙ before.1));
        unique =
            unique-put stage k (registered w) sound.unique
              (apart k (registered w) (λ w' p. mine ∙ p));
        owned = λ w' j listed. elim (ℕ_discrete w' w) [
          | yes p ↦
              let there : some k ≡ some j =
                subst (λ (o : Option ℕ). o ≡ some j) (put_self sh.pending w (some k))
                  (subst (λ (x : ℕ). put sh.pending w (some k) x ≡ some j) p listed) in
              let same : j ≡ k = cc there in rw (same, put_self stage k (registered w), p) refl
          | no ne ↦
              let old : sh.pending w' ≡ some j =
                rw (put_ne sh.pending w (some k) w' ne) at listed in
              let apart_k : j ≢ k = λ p.
                unlisted k (ap listed_id e) w' (subst (λ (x : ℕ). sh.pending w' ≡ some x) p old) in
              rw (put_ne stage k (registered w) j apart_k) (sound.owned w' j old)
        ];
      }

  -- A call that goes on with its id, listed as before.
  pub send-IsSound :
      (k w : ℕ) (st : Stage)
      → stage k ≡ registered w
      → id_of st ≡ some w
      → listed_id st ≡ some w
      → CallIsSound n sh k st
      → IsSound n sh (put stage k st)
  send-IsSound k w st e same_id same_list mine = record {
    calls = others_sound n sh k st (omega arith) (λ j w' ne ej. refl) (λ j ne. refl) mine;
    unique = unique-put stage k st sound.unique (apart k st (λ w' p. ap id_of e ∙ sym same_id ∙ p));
    owned = λ w' j listed. elim (ℕ_discrete j k) [
      | yes p ↦
          let was : listed_id (stage k) ≡ some w' =
            subst (λ (x : ℕ). listed_id (stage x) ≡ some w') p (sound.owned w' j listed) in
          rw (p, put_self stage k st) (same_list ∙ sym (ap listed_id e) ∙ was)
      | no ne ↦ rw (put_ne stage k st j ne) (sound.owned w' j listed)
    ];
  }

  pub remove-IsSound :
      (k w : ℕ) → stage k ≡ refused w → IsSound n (unregister w sh) (put stage k rejected)
  unfolding unregister
  remove-IsSound k w e =
      let mine : id_of (stage k) ≡ some w = ap id_of e in
      record {
        calls =
            others_sound n (unregister w sh) k rejected (omega arith)
              (λ j w' ne ej. put_ne sh.pending w none w' (other_id k w j w' mine ne ej))
              (λ j ne.
                drop_sender-delivered (sh.pending w) sh j (λ k' p q. ne (q ∙ owner k w k' mine p)))
              tt;
        unique = unique-put stage k rejected sound.unique (λ j w' ne ej ew. cc ew);
        owned = λ w' j listed. elim (ℕ_discrete w' w) [
          | yes p ↦
              let gone : none ≡ some j =
                subst (λ (o : Option ℕ). o ≡ some j) (put_self sh.pending w none)
                  (subst (λ (x : ℕ). put sh.pending w none x ≡ some j) p listed) in
              cc gone
          | no ne ↦
              let old : sh.pending w' ≡ some j = rw (put_ne sh.pending w none w' ne) at listed in
              let apart_k : j ≢ k = λ p. ne (
                id_eq (
                  ap listed_id (sym e)
                  ∙ ap (λ (x : ℕ). listed_id (stage x)) (sym p)
                  ∙ sound.owned w' j old)) in
              rw (put_ne stage k rejected j apart_k) (sound.owned w' j old)
        ];
      }
    where
      id_eq : {a b : ℕ} → some a ≡ some b → b ≡ a
      id_eq p = cc p
