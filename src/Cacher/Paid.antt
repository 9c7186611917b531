-- ===== src/Cacher/Paid.antt =====
-- Who gets a fragment from the cache, on every path of the download (cd2n-node/actors/cache_actor.go).
use cess_dcdn_components.Base.Text.{split}
use cess_dcdn_components.Base.Int.{neg_ℕ}
use cess_dcdn_components.Cacher.Service.{
  admit, send_named, charge, download_name, fragment_key, handle_download, read_cached, send_file,
  serve_file, write,
}
use cess_dcdn_components.Credit.{add_credit_point, check_credit}
use cess_dcdn_components.Types.{CacheRequest, Status}
use cess_dcdn_components.Cacher.{CacheActor, State, file_reply, outside, text_reply}
use cess_dcdn_components.Base.{
  Option-cases, ap, codes, err, false, inl, inr, is_nil, next, ok, panic, refl, some, sym, true, ℕ,
  ◌∙◌, ◌≡◌, ◌⊎◌, Bool, Bytes, Outcome,
}

module _ {W : Type 0} (c : CacheActor W) (req : CacheRequest) (s : State W) where
  -- Nothing is sent, or one error.
  abbrev pub NoFile : Outcome (Unit {0}) × State W → Type 0
  NoFile r =
      (r.1.stream ≡ s.stream)
      ⊎ ((text : Bytes) × (r.1.stream ≡ write (text_reply Status.error text) s.stream))

  -- The credit of the account was checked, and then the file was read from the cache; if the account's
  -- key is valid, the file is the one thing sent, and its size is booked on the account.
  pub record IsServed (r : Outcome (Unit {0}) × State W) : Type 0 where
    pub name : Bytes
    pub bytes : Bytes
    pub size : ℕ
    pub checked : W
    pub loaded : W
    pub key : fragment_key (split req.want_file) ≡ some name
    pub admitted :
        check_credit c.credit_mg req.account_id req.content req.sign s.world ≡ (ok true, checked)
    pub cached : read_cached c name checked ≡ (ok (bytes, size), loaded)
    pub booked :
        (acc : Bytes)
        → c.credit_mg.address_of req.account_id ≡ ok acc
        → (r.1.stream ≡ write (file_reply bytes) s.stream)
          × (r.1.world ≡ (add_credit_point c.credit_mg acc (neg_ℕ size) loaded).1)

  abbrev pub IsGuarded : Outcome (Unit {0}) × State W → Type 0
  IsGuarded r = NoFile r ⊎ IsServed r

  charged_by :
      (o : Outcome Bytes) (name bytes : Bytes) (size : ℕ) (w1 w2 : W)
      → c.credit_mg.address_of req.account_id ≡ o
      → fragment_key (split req.want_file) ≡ some name
      → check_credit c.credit_mg req.account_id req.content req.sign s.world ≡ (ok true, w1)
      → read_cached c name w1 ≡ (ok (bytes, size), w2)
      → IsServed
          (charge c size o (record s { world = w2; stream = write (file_reply bytes) s.stream }))
  charged_by (ok a) name bytes size w1 w2 e key admitted cached = record {
    name = name;
    bytes = bytes;
    size = size;
    checked = w1;
    loaded = w2;
    key = key;
    admitted = admitted;
    cached = cached;
    booked = λ acc h.
        let same : a ≡ acc = cc in
        (refl, ap (λ a. (add_credit_point c.credit_mg a (neg_ℕ size) w2).1) same);
  }
  charged_by (err x) name bytes size w1 w2 e key admitted cached = record {
    name = name;
    bytes = bytes;
    size = size;
    checked = w1;
    loaded = w2;
    key = key;
    admitted = admitted;
    cached = cached;
    booked = λ acc h. let no : err x ≡ ok acc = sym e ∙ h in cc;
  }
  charged_by panic name bytes size w1 w2 e key admitted cached = record {
    name = name;
    bytes = bytes;
    size = size;
    checked = w1;
    loaded = w2;
    key = key;
    admitted = admitted;
    cached = cached;
    booked = λ acc h. let no : panic ≡ ok acc = sym e ∙ h in cc;
  }

  served_by :
      (r : Outcome (Bytes × ℕ) × W) (name : Bytes) (w1 : W)
      → read_cached c name w1 ≡ r
      → fragment_key (split req.want_file) ≡ some name
      → check_credit c.credit_mg req.account_id req.content req.sign s.world ≡ (ok true, w1)
      → IsGuarded (send_file c req r.0 (record s { world = r.1 }))
  served_by (ok (bytes, size), w2) name w1 e key admitted =
      inr (
        charged_by (c.credit_mg.address_of req.account_id) name bytes size w1 w2 refl key admitted
          e)
  served_by (err x, w2) name w1 e key admitted = inl (inr (x, refl))
  served_by (panic, w2) name w1 e key admitted = inl (inl refl)

  checked_by :
      (r : Outcome Bool × W) (name : Bytes)
      → check_credit c.credit_mg req.account_id req.content req.sign s.world ≡ r
      → fragment_key (split req.want_file) ≡ some name
      → IsGuarded (next (send_named c req) (next (admit c name) (outside (λ _. r) s)))
  unfolding serve_file
  checked_by (ok true, w1) name e key = served_by (read_cached c name w1) name w1 refl key e
  checked_by (ok false, w1) name e key = inl (inr (codes "failed credit check", refl))
  checked_by (err x, w1) name e key = inl (inl refl)
  checked_by (panic, w1) name e key = inl (inl refl)

  -- A request for a fragment, whatever it holds and whatever the cache, the files and the ledger answer:
  -- nothing is sent or one error, or else the credit of the account was checked with success before the
  -- file was read, and then, for a valid key, the file is sent and its size booked on the account.
  pub handle_download-IsGuarded : is_nil req.want_url ≡ true → IsGuarded (handle_download c req s)
  unfolding handle_download download_name
  handle_download-IsGuarded file = elim (Option-cases (fragment_key (split req.want_file))) [
    | inl bad ↦ rw (file, bad) (inl (inr (codes "illegal file Id and segment Id", refl)))
    | inr (name, key) ↦
        rw (file, key)
          (checked_by (check_credit c.credit_mg req.account_id req.content req.sign s.world) name
            refl key)
  ]
