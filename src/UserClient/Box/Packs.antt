-- ===== src/UserClient/Box/Packs.antt =====
-- What `CreateAFileBox` makes of a directory of files that fit a fragment.
use cess_dcdn_components.UserClient.Box.Names.{
  HasNames, files_of, fill-HasNames, names_in, packed_names, set_last-files, set_last-panic,
}
use cess_dcdn_components.Base.Int.{add64}
use cess_dcdn_components.Base.FilePath.{join}
use cess_dcdn_components.UserClient.Box.Layout.{offsets, concat}
use cess_dcdn_components.UserClient.Box.Sealed.{SealedBox, set_last-SealedBox, ReadsBox}
use cess_dcdn_components.UserClient.Box.{
  create_a_file_box, finish, no_filling, seal_plate, set_last, Entry, FileBox, FilePlate, Filling,
  Folder, append_file, fill, make_room, packed_size, place, write_data_to,
}
use cess_dcdn_components.Base.{
  sym, arith, lift, map, refl, wrapped, wrapping, wrapping_ok, Option, ap, none, Action, All, Bytes,
  List, Option-cases, Outcome, [], bind_ok, err, inl, inr, length, next, ok, panic, pure, some, ℕ,
  ◌++◌, ◌<◌, ◌>>=◌, ◌>>◌, ◌^◌, ◌∙◌, ◌∷◌, ◌≡◌, ◌≢◌, ◌≤◌,
}
use cess_dcdn_components.UserClient.Box.Create.{IsLaid, IsSteady, append_file-IsLaid}
use cess_dcdn_components.UserClient.Box.Room.{HasRoom, make_room-HasRoom, write_data_to_lem}

module _ {W : Type 0} (folder : Folder W) (F : ℕ) (fname dir : Bytes) (written : W → Bytes)
    (at : Bytes → Bytes) (beyond : ℕ → Bytes → Outcome Bytes) where
  -- Where the box is written, and the files of the directory by their names.
  abbrev pub box_path : Bytes
  box_path = join (dir ∷ fname ∷ [])

  abbrev pub content_of : Bytes → Bytes
  content_of name = at (join (dir ∷ name ∷ []))

  -- A file that is packed fits a fragment, its size is that of its contents, and it is not the box.
  abbrev pub Fits : Entry → Type 0
  Fits e =
      (n : ℕ)
      → packed_size e ≡ some n
      → (n ≤ F) × (length (content_of e.name) ≡ n) × (join (dir ∷ e.name ∷ []) ≢ box_path)

  -- The box file splits into fragments, one for each plate, from which the plate's files are read, and
  -- what is left, the files of the open plate, which fit one more. The plates have the names of the files
  -- packed first, with a mark at their end; the names of the files that are left come after these.
  pub record IsBoxOf (names : List Bytes) (plates : List FilePlate) (image : Bytes) : Type 0 where
    pub fragments : List Bytes
    pub recorded : List Bytes
    pub lost : List Bytes
    pub split : image ≡ concat fragments ++ concat (map content_of lost)
    pub sized : All (λ b. length b ≡ F) fragments
    pub readable : ReadsBox beyond content_of plates fragments
    pub marked : files_of plates ≡ recorded ++ ([] ∷ [])
    pub all : recorded ++ lost ≡ names
    pub short : length (concat (map content_of lost)) ≤ F

  -- There is a box, or else all files, which are what was written, together fit one fragment.
  abbrev pub Boxed : List Bytes → Outcome (FileBox × Bytes) × W → Type 0
  Boxed names (ok (box, path), w) = IsBoxOf names box.plates (written w) × (path ≡ box_path)
  Boxed names (err e, w) = ⊥
  Boxed names (panic, w) = (written w ≡ concat (map content_of names)) × (length (written w) ≤ F)

  module _ (small : F < 2 ^ 62) (steady : IsSteady folder box_path written at) where
    abbrev LaidAt : Outcome Filling × W → Type 0
    LaidAt (ok s, w) = IsLaid F content_of s (written w)
    LaidAt (err e, w) = ⊥
    LaidAt (panic, w) = ⊥

    abbrev store : Bytes → ℕ → Filling → Action W Filling
    store name n t = do
      bytes ← folder.read_file (join (dir ∷ name ∷ []))
      write_data_to folder F box_path bytes
      pure (append_file name n t)

    store_lem :
        (name : Bytes) (n : ℕ) (t : Filling) (w : W)
        → join (dir ∷ name ∷ []) ≢ box_path
        → store name n t w ≡ (ok (append_file name n t), steady.grown (content_of name) w)
    store_lem name n t w ne =
        bind_ok (folder.read_file (join (dir ∷ name ∷ [])))
          (λ bytes. write_data_to folder F box_path bytes >> pure (append_file name n t))
          (steady.read (join (dir ∷ name ∷ [])) w ne)
        ∙ bind_ok (write_data_to folder F box_path (content_of name))
            (λ _. pure (append_file name n t))
            (write_data_to_lem folder F box_path dir written at small steady (content_of name) w)

    store-LaidAt :
        (name : Bytes) (n : ℕ) (r : Outcome Filling × W)
        → length (content_of name) ≡ n
        → join (dir ∷ name ∷ []) ≢ box_path
        → HasRoom folder F box_path dir written at small steady n r
        → LaidAt (next (store name n) r)
    store-LaidAt name n (ok t, w) size ne h =
        rw (store_lem name n t w ne, steady.written-grown (content_of name) w)
          (append_file-IsLaid F content_of t (written w) name n small h.0 h.1 size)
    store-LaidAt name n (err e, w) size ne h = absurd h
    store-LaidAt name n (panic, w) size ne h = absurd h

    bind-LaidAt :
        (f : Filling → Action W Filling) (r : Outcome Filling × W)
        → ((s : Filling) (w : W) → IsLaid F content_of s (written w) → LaidAt (f s w))
        → LaidAt r
        → LaidAt (next f r)
    bind-LaidAt f (ok s, w) k h = k s w h
    bind-LaidAt f (err e, w) k h = absurd h
    bind-LaidAt f (panic, w) k h = absurd h

    -- The loop at an entry, by what its size says.
    abbrev fill_after : Entry → List Entry → Filling → Option ℕ → Action W Filling
    fill_after e es s o = elim o [
      | none ↦ fill folder F box_path dir es s
      | some n ↦ place folder F box_path dir e.name n s >>= fill folder F box_path dir es
    ]

    fill_entry :
        (e : Entry) (es : List Entry) (s : Filling) (w : W) (o : Option ℕ)
        → packed_size e ≡ o
        → fill folder F box_path dir (e ∷ es) s w ≡ fill_after e es s o w
    unfolding fill
    fill_entry e es s w o h = ap (λ o. fill_after e es s o w) h

    fill-LaidAt :
        (es : List Entry) (s : Filling) (w : W)
        → All Fits es
        → IsLaid F content_of s (written w)
        → LaidAt (fill folder F box_path dir es s w)
    unfolding fill place
    fill-LaidAt [] s w fits h = h
    fill-LaidAt (e ∷ es) s w fits h = elim (Option-cases (packed_size e)) [
      | inl skip ↦ rw (fill_entry e es s w none skip) (fill-LaidAt es s w fits.1 h)
      | inr some_n ↦
          let (small_n, size, ne) = fits.0 some_n.0 some_n.1 in
          rw (fill_entry e es s w (some some_n.0) some_n.1) (
            bind-LaidAt (fill folder F box_path dir es)
              (place folder F box_path dir e.name some_n.0 s w)
              (λ t v k. fill-LaidAt es t v fits.1 k)
              (store-LaidAt e.name some_n.0 (make_room folder F box_path some_n.0 s w) size ne (
                make_room-HasRoom folder F box_path dir written at small steady some_n.0 s w small_n
                  h)))
    ]

    -- The box that the sealed plates give.
    abbrev sealed_box : Filling → Outcome (List FilePlate) → Outcome FileBox
    sealed_box s o = elim o [
      | ok plates ↦ ok (record {
        file_hash = [];
        total_size = add64 (add64 s.total s.size) s.padding;
        padding_size = s.padding;
        plates = plates;
      })
      | err e ↦ err e
      | panic ↦ panic
    ]

    abbrev with_path : Outcome FileBox → Outcome (FileBox × Bytes)
    with_path o = elim o [ ok box ↦ ok (box, box_path) | err e ↦ err e | panic ↦ panic ]

    abbrev box_of : Filling → Outcome (List FilePlate) → Outcome (FileBox × Bytes)
    box_of s o = with_path (sealed_box s o)

    -- Without a closed plate all files are in the open one.
    none_closed :
        (s : Filling) (names : List Bytes)
        → names_in s ≡ names
        → s.closed ≡ []
        → s.plate.files ≡ names
    none_closed s names h e = ap (λ ps. files_of ps ++ s.plate.files) (sym e) ∙ h

    box_of-Boxed :
        (s : Filling) (w : W) (names : List Bytes) (h : IsLaid F content_of s (written w))
        → names_in s ≡ names
        → (o : Outcome (List FilePlate)) → set_last (seal_plate s.size) s.closed ≡ o
        → SealedBox beyond content_of h.fragments o
        → Boxed names (box_of s o, w)
    unfolding concat
    box_of-Boxed s w names h n (ok plates) e k = (
      record {
        fragments = h.fragments;
        recorded = files_of s.closed;
        lost = s.plate.files;
        split = h.bytes;
        sized = h.sized;
        readable = k;
        marked = set_last-files s.size s.closed plates e;
        all = n;
        short = omega (arith, h.size, h.bound);
      },
      refl,
    )
    box_of-Boxed s w names h n (err e) q k = absurd k
    box_of-Boxed s w names h n panic q k =
        let image : written w ≡ concat (map content_of s.plate.files) =
          h.bytes ∙ ap (λ bs. concat bs ++ concat (map content_of s.plate.files)) k in
        (
          image
              ∙ ap (λ ns. concat (map content_of ns))
                  (none_closed s names n (set_last-panic s.size s.closed q)),
          omega (arith, h.size, h.bound, ap length image),
        )

    abbrev finish_box : Filling → Action W (FileBox × Bytes)
    finish_box s = do
      wrapping "create a file box error" (folder.sync box_path)
      box ← lift (λ _. finish s)
      pure (box, box_path)

    lift-with_path :
        (o : Outcome FileBox) (w : W)
        → (lift (λ _. o) >>= λ box. pure (box, box_path)) w ≡ (with_path o, w)
    lift-with_path (ok box) w = refl
    lift-with_path (err e) w = refl
    lift-with_path panic w = refl

    finish_box_lem :
        (s : Filling) (w : W)
        → finish_box s w ≡ (box_of s (set_last (seal_plate s.size) s.closed), w)
    unfolding finish
    finish_box_lem s w =
        bind_ok (wrapping "create a file box error" (folder.sync box_path))
          (λ _. lift (λ _. finish s) >>= λ box. pure (box, box_path))
          (wrapping_ok "create a file box error" (folder.sync box_path) (steady.sync w))
        ∙ lift-with_path (finish s) w

    finish_box-Boxed :
        (names : List Bytes) (r : Outcome Filling × W)
        → LaidAt r
        → HasNames folder F box_path dir names r
        → Boxed names (next finish_box (wrapped "create a file box error" r))
    finish_box-Boxed names (ok s, w) h n = rw (finish_box_lem s w) (
        box_of-Boxed s w names h n (set_last (seal_plate s.size) s.closed) refl
          (set_last-SealedBox beyond content_of s.size s.closed h.fragments h.closed))
    finish_box-Boxed names (err e, w) h n = absurd h
    finish_box-Boxed names (panic, w) h n = absurd h

    pub create_a_file_box_lem :
        (es : List Entry) (w : W)
        → folder.read_dir dir w ≡ (ok es, w)
        → All Fits es
        → Boxed (packed_names es) (create_a_file_box folder F fname dir w)
    unfolding create_a_file_box concat offsets
    create_a_file_box_lem es w entries fits =
        rw
          (
            bind_ok (wrapping "create a file box error" (folder.read_dir dir))
                (λ es.
                  wrapping "create a file box error" (folder.create box_path) >>= λ _. packing es)
                (wrapping_ok "create a file box error" (folder.read_dir dir) entries),
            bind_ok (wrapping "create a file box error" (folder.create box_path)) (λ _. packing es)
                (wrapping_ok "create a file box error" (folder.create box_path) (steady.create w)),
          )
          (finish_box-Boxed (packed_names es)
            (fill folder F box_path dir es no_filling (steady.emptied w))
            (fill-LaidAt es no_filling (steady.emptied w) fits empty)
            (fill-HasNames folder F box_path dir es no_filling (steady.emptied w)))
      where
        packing : List Entry → Action W (FileBox × Bytes)
        packing es =
            wrapping "create a file box error" (fill folder F box_path dir es no_filling)
            >>= finish_box

        empty : IsLaid F content_of no_filling (written (steady.emptied w))
        empty = record {
          fragments = [];
          bytes = steady.written-emptied w;
          closed = tt;
          sized = tt;
          places = refl;
          size = refl;
          bound = omega arith;
        }
