-- ===== src/Host/Cache/Listing.antt =====
-- pkg/host/cache.go: what List returns.
use device_network.Prelude.{◌≡◌, refl, sym, subst, ◌↔◌, Option, none, some, List, [], ◌∷◌, In}
use device_network.Prelude.Results.{Result, ok, err, panic, unfinished}
use device_network.Prelude.Dict.{values}
use device_network.Api.{Selector, CelDeviceSelector}
use device_network.Host.{Device}
use device_network.Host.Filter.{Cel, cel_program, eval_devices}
use device_network.Host.Filter.Exact.{Matches, eval_devices_iff}
use device_network.Host.Cache.{DeviceCache, evaluated, apply_selector, apply_selectors, list}

module _ (c : Cel) (order : List Device → List Device)
    (order-sound : (ds : List Device) (d : Device) → In d (order ds) → In d ds) where
  apply_selector-In :
      (o : Option CelDeviceSelector) (ds : List Device) (d : Device)
      → In d (apply_selector c order o ds)
      → In d ds
  unfolding apply_selector evaluated
  apply_selector-In none ds d i = i
  apply_selector-In (some cel) ds d i = go (eval_devices c cel.expression (order ds)) refl i
    where
      go :
          (r : Result (List Device))
          → eval_devices c cel.expression (order ds) ≡ r
          → In d (evaluated c order r ds)
          → In d ds
      go (ok out) e j =
          order-sound ds d (((eval_devices_iff c cel.expression (order ds) e).2 d).0 j).0
      go (err e') e j = j
      go panic e j = j
      go unfinished e j = j

  apply_selectors-In :
      (selectors : List Selector) (ds : List Device) (d : Device)
      → In d (apply_selectors c order selectors ds)
      → In d ds
  unfolding apply_selectors
  apply_selectors-In [] ds d i = i
  apply_selectors-In (s ∷ rest) ds d i =
      apply_selector-In s.cel ds d (apply_selectors-In rest (apply_selector c order s.cel ds) d i)

  -- Whatever the selectors, a listed device stands in the store.
  pub list-In :
      (dc : DeviceCache) (selectors : List Selector) (d : Device)
      → In d (list c order dc selectors)
      → In d (values dc.store)
  unfolding list
  list-In dc selectors d i = apply_selectors-In selectors (values dc.store) d (order-sound _ d i)

  -- When an unsorted list shows exactly the devices of the set, and the one selector's expression
  -- evaluates on all of them, its program compiles and List returns exactly the devices of the
  -- store of which it is true.
  pub list_iff :
      ((ds : List Device) (d : Device) → In d ds → In d (order ds))
      → (dc : DeviceCache) (s : Selector) (cel : CelDeviceSelector) → s.cel ≡ some cel
      → {out : List Device} → eval_devices c cel.expression (order (values dc.store)) ≡ ok out
      → (p : c.Program) × (cel_program c cel.expression ≡ ok p)
        × ((d : Device) → In d (list c order dc (s ∷ [])) ↔ Matches c p (values dc.store) d)
  unfolding list
  list_iff order-complete dc s cel e {out} run =
      let (p, compiled, selected) =
        eval_devices_iff c cel.expression (order (values dc.store)) run in
      (
        p,
        compiled,
        λ d.
            subst (λ ds. In d (order ds) ↔ Matches c p (values dc.store) d) (sym kept)
              (
                λ i. let (a, b) = (selected d).0 (order-sound out d i) in (order-sound _ d a, b),
                λ (a, b). order-complete out d ((selected d).1 (order-complete _ d a, b)),
              ),
      )
    where
      kept : apply_selectors c order (s ∷ []) (values dc.store) ≡ out
      kept = rw (e, apply_selectors, apply_selector) (rw run)
