-- ===== src/Dealer/Parsing/Cells.antt =====
-- The counts and the identities of the loop over the cells of normalize_dealer_gex_surface.
use options_anomaly_scanner.Prelude.{
  suc, ◌+◌, ◌≡◌, refl, ap, ◌∙◌, Bool, true, false, List, [], ◌∷◌, arith, any_by, length, is_some,
  count_by, ltb, ==_iff, In, here, there,
}
use options_anomaly_scanner.Prelude.Json.{Items, no_items, item}
use options_anomaly_scanner.Dealer.Parsing.{
  Python, DealerGexCellValue, ParsedCells, CellReading, invalid_cell, valid_cell, add_cell,
  is_fresh, remember, same_identity, read_cell, parse_cells, cell_keys,
}
use options_anomaly_scanner.Dealer.Surface.{count_items}
use Prim.Native.String.{String}

abbrev pub has_net : {D : Type 0} → DealerGexCellValue D → Bool
has_net cell = is_some cell.net_dealer_gex_usd

any_by-In {ℓ} :
    {A : Type ℓ} (p : A → Bool) (a : A) (xs : List A) → any_by p xs ≡ false → In a xs → p a ≡ false
unfolding any_by
any_by-In p a [] h m = elim m [ ]
any_by-In p a (x ∷ xs) h (here e) = rw e (ground (arith, h))
any_by-In p a (x ∷ xs) h (there m) = any_by-In p a xs (ground (arith, h)) m

pub any_by-count_by {ℓ} :
    {A : Type ℓ} (p : A → Bool) (xs : List A) → any_by p xs ≡ ltb 0 (count_by p xs)
unfolding any_by count_by
any_by-count_by p [] = refl
any_by-count_by p (x ∷ xs) = ground (arith, any_by-count_by p xs)

module _ {D : Type 0} (py : Python D) where
  -- No two cells have one identity.
  abbrev pub DistinctIdentity : List (DealerGexCellValue D) → Type 0
  DistinctIdentity [] = Unit
  DistinctIdentity (cell ∷ rest) =
      (any_by (same_identity py cell) rest ≡ false) × DistinctIdentity rest

  same_identity_sym :
      (a b : DealerGexCellValue D) → same_identity py a b ≡ false → same_identity py b a ≡ false
  same_identity_sym a b h = ground (
    arith,
    h,
    py.decimal_eq.beq_iff a.strike b.strike,
    py.decimal_eq.beq_iff b.strike a.strike,
    ==_iff a.expiration b.expiration,
  )

  add_cell-count :
      (r : CellReading D) (fresh : Bool) (ks : List String) (p : ParsedCells D)
      → let q = add_cell py r fresh ks p in
        length q.parsed_cells + q.invalid_rows + q.duplicate_rows
        ≡ suc (length p.parsed_cells + p.invalid_rows + p.duplicate_rows)
  unfolding add_cell
  add_cell-count invalid_cell fresh ks p = omega arith
  add_cell-count (valid_cell c) true ks p = omega arith
  add_cell-count (valid_cell c) false ks p = omega arith

  pub parse_cells-count :
      (seen : List (DealerGexCellValue D)) (items : Items D)
      → let p = parse_cells py seen items in
        length p.parsed_cells + p.invalid_rows + p.duplicate_rows ≡ count_items items
  unfolding parse_cells count_items
  parse_cells-count seen no_items = refl
  parse_cells-count seen (item c rest) =
      let r = read_cell py c in
      let later = parse_cells py (remember py seen r) rest in
      add_cell-count r (is_fresh py seen r) (cell_keys py c) later
      ∙ ap suc (parse_cells-count (remember py seen r) rest)

  add_cell-net :
      (r : CellReading D) (fresh : Bool) (ks : List String) (p : ParsedCells D)
      → p.missing_net_rows + count_by has_net p.parsed_cells ≡ length p.parsed_cells
      → let q = add_cell py r fresh ks p in
        q.missing_net_rows + count_by has_net q.parsed_cells ≡ length q.parsed_cells
  unfolding add_cell count_by
  add_cell-net invalid_cell fresh ks p h = h
  add_cell-net (valid_cell c) true ks p h = ground (arith, h)
  add_cell-net (valid_cell c) false ks p h = h

  pub parse_cells-net :
      (seen : List (DealerGexCellValue D)) (items : Items D)
      → let p = parse_cells py seen items in
        p.missing_net_rows + count_by has_net p.parsed_cells ≡ length p.parsed_cells
  unfolding parse_cells count_by
  parse_cells-net seen no_items = refl
  parse_cells-net seen (item c rest) =
      let r = read_cell py c in
      add_cell-net r (is_fresh py seen r) (cell_keys py c) _
        (parse_cells-net (remember py seen r) rest)

  -- No parsed cell has the identity of a cell seen before.
  add_cell-unseen :
      (known : DealerGexCellValue D) (seen : List (DealerGexCellValue D)) (r : CellReading D)
      (fresh : Bool) (ks : List String) (p : ParsedCells D)
      → is_fresh py seen r ≡ fresh
      → In known seen
      → any_by (same_identity py known) p.parsed_cells ≡ false
      → any_by (same_identity py known) (add_cell py r fresh ks p).parsed_cells ≡ false
  unfolding add_cell any_by
  add_cell-unseen known seen invalid_cell fresh ks p e m h = h
  add_cell-unseen known seen (valid_cell c) false ks p e m h = h
  add_cell-unseen known seen (valid_cell c) true ks p e m h =
      let unseen : any_by (same_identity py c) seen ≡ false = ground (arith, e) in
      rw (same_identity_sym c known (any_by-In (same_identity py c) known seen unseen m), h) refl

  parse_cells-unseen :
      (known : DealerGexCellValue D) (seen : List (DealerGexCellValue D)) (items : Items D)
      → In known seen
      → any_by (same_identity py known) (parse_cells py seen items).parsed_cells ≡ false
  unfolding parse_cells any_by
  parse_cells-unseen known seen no_items m = refl
  parse_cells-unseen known seen (item c rest) m =
      let r = read_cell py c in
      add_cell-unseen known seen r (is_fresh py seen r) (cell_keys py c) _ refl m
        (parse_cells-unseen known (remember py seen r) rest (In-remember r m))
    where
      In-remember : (r : CellReading D) → In known seen → In known (remember py seen r)
      In-remember invalid_cell m = m
      In-remember (valid_cell c) m = there m

  add_cell-DistinctIdentity :
      (r : CellReading D) (fresh : Bool) (ks : List String) (seen : List (DealerGexCellValue D))
      (rest : Items D)
      → let p = parse_cells py (remember py seen r) rest in
        DistinctIdentity p.parsed_cells → DistinctIdentity (add_cell py r fresh ks p).parsed_cells
  unfolding add_cell
  add_cell-DistinctIdentity invalid_cell fresh ks seen rest h = h
  add_cell-DistinctIdentity (valid_cell c) false ks seen rest h = h
  add_cell-DistinctIdentity (valid_cell c) true ks seen rest h =
      (parse_cells-unseen c (c ∷ seen) rest (here refl), h)

  pub parse_cells-DistinctIdentity :
      (seen : List (DealerGexCellValue D)) (items : Items D)
      → DistinctIdentity (parse_cells py seen items).parsed_cells
  unfolding parse_cells
  parse_cells-DistinctIdentity seen no_items = tt
  parse_cells-DistinctIdentity seen (item c rest) =
      let r = read_cell py c in
      add_cell-DistinctIdentity r (is_fresh py seen r) (cell_keys py c) seen rest
        (parse_cells-DistinctIdentity (remember py seen r) rest)
