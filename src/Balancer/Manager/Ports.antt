-- ===== src/Balancer/Manager/Ports.antt =====
-- The order in which a reload stops and starts groups (manager.go, Reload): listen addresses.
use mathlib.Core.List.{Permᴰ}
use mathlib.Core.List.Permᴰ
use s5lb.Base.{
  ◌≡◌, refl, sym, ap, ◌∙◌, subst, true, false, if-elim, String, str_eq, List, [], ◌∷◌, ◌++◌, map,
  arith, All, All-imp, All-zip, append_assoc,
}
use s5lb.Config.Names.{one_of}
use s5lb.Balancer.Manager.{Entry}
use s5lb.Balancer.Manager.Removal.{Action, stops, address, later, start, stop_at, drain_first, plan}

module _ {D : Type 0} where
  abbrev pub stop : Entry D → Action
  stop e = stops e.name (address e)

  -- The shutdowns are those of some of the groups, all at `listen`; the rest are the others.
  abbrev Parted : String → List (Entry D) → List Action × List (Entry D) → Type 1
  Parted listen es (acts, rest) =
      (drained : List (Entry D)) × (acts ≡ map stop drained)
      × Permᴰ es (drained ++ rest)
      × All (λ e. str_eq (address e) listen ≡ true) drained
      × All (λ e. str_eq (address e) listen ≡ false) rest
      × ((Q : Entry D → Type 0) → All Q es → All Q rest)

  stop_at-Parted : (listen : String) (es : List (Entry D)) → Parted listen es (stop_at listen es)
  unfolding stop_at
  stop_at-Parted listen [] = ([], refl, Permᴰ.nil, tt, tt, λ Q h. h)
  stop_at-Parted listen (e ∷ es) =
      let (drained, same, perm, at, clear, sub) = stop_at-Parted listen es in
      if-elim (λ (r : List Action × List (Entry D)). Parted listen (e ∷ es) r)
        (str_eq (address e) listen) _ _
        (λ h. (
          e ∷ drained,
          ap (◌∷◌ (stop e)) same,
          Permᴰ.cons refl perm,
          (h, at),
          clear,
          λ Q (q, qs). sub Q qs,
        ))
        (λ h. (
          drained,
          same,
          Permᴰ.trans (Permᴰ.cons refl perm) (Permᴰ.symm (Permᴰ.middle e drained _)),
          at,
          (h, clear),
          λ Q (q, qs). (q, sub Q qs),
        ))

  -- `e` is at an address that a group needs which waits for its start; or at none.
  abbrev pub IsInTheWay : List (Entry D) → Entry D → Type 0
  IsInTheWay pending e = one_of (address e) (map address pending) ≡ true

  abbrev pub IsClear : List (Entry D) → Entry D → Type 0
  IsClear pending e = one_of (address e) (map address pending) ≡ false

  abbrev Drained : List (Entry D) → List (Entry D) → List Action × List (Entry D) → Type 1
  Drained pending es (acts, left) =
      (drained : List (Entry D)) × (acts ≡ map stop drained)
      × Permᴰ es (drained ++ left)
      × All (IsInTheWay pending) drained
      × All (IsClear pending) left
      × ((Q : Entry D → Type 0) → All Q es → All Q left)

  All-IsClear : (es : List (Entry D)) → All (IsClear []) es
  unfolding one_of
  All-IsClear [] = tt
  All-IsClear (e ∷ es) = (refl, All-IsClear es)

  map_append : (xs ys : List (Entry D)) → map stop xs ++ map stop ys ≡ map stop (xs ++ ys)
  map_append [] ys = refl
  map_append (x ∷ xs) ys = ap (◌∷◌ (stop x)) (map_append xs ys)

  All-append :
      (Q : Entry D → Type 0) (xs ys : List (Entry D)) → All Q xs → All Q ys → All Q (xs ++ ys)
  All-append Q [] ys h k = k
  All-append Q (x ∷ xs) ys (q, h) k = (q, All-append Q xs ys h k)

  drain_first-Drained :
      (pending gone : List (Entry D)) → Drained pending gone (drain_first pending gone)
  unfolding drain_first one_of
  drain_first-Drained [] gone = ([], refl, Permᴰ.refl gone, tt, All-IsClear gone, λ Q h. h)
  drain_first-Drained (p ∷ pending) gone =
      let (acts, mid) = stop_at (address p) gone in
      let (here, same, perm, at, clear, sub) = stop_at-Parted (address p) gone in
      let (more, left) = drain_first pending mid in
      let (there, same', perm', at', clear', sub') = drain_first-Drained pending mid in
      (
        here ++ there,
        ap (λ l. l ++ more) same ∙ ap (λ l. map stop here ++ l) same' ∙ map_append here there,
        subst (Permᴰ gone) (sym (append_assoc here there left))
            (Permᴰ.trans perm (Permᴰ.append_left here perm')),
        All-append (IsInTheWay (p ∷ pending)) here there
            (All-imp here (λ e h. ground (arith, h)) at)
            (All-imp there (λ e h. ground (arith, h)) at'),
        All-imp left (λ e (h, h'). ground (arith, h, h')) (All-zip _ _ left (sub' _ clear) clear'),
        λ Q h. sub' Q (sub Q h),
      )

  -- The removed groups are parted into two lists, each group in one of them. A reload shuts down those
  -- of the first, which stand at a listen address that a new group needs, and waits for it; then it
  -- starts to shut down those of the second, which stand at no such address, in the background; then it
  -- starts the new groups. It does nothing else.
  pub plan-Drained :
      (pending gone : List (Entry D))
      → (drained : List (Entry D)) × (left : List (Entry D)) × Permᴰ gone (drained ++ left)
        × All (IsInTheWay pending) drained
        × All (IsClear pending) left
        × (plan pending gone ≡ map stop drained ++ (map later left ++ map start pending))
  unfolding plan
  plan-Drained pending gone =
      let (drained, same, perm, at, clear, _) = drain_first-Drained pending gone in
      (
        drained,
        (drain_first pending gone).1,
        perm,
        at,
        clear,
        ap (λ acts. acts ++ (map later (drain_first pending gone).1 ++ map start pending)) same,
      )
