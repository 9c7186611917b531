-- ===== src/Cacher/Downloads.antt =====
-- What a page costs an account whose key is not valid.
use mathlib.Core.List.{append_assoc}
use cess_dcdn_components.Cacher.Service.{
  charge, download_name, handle_download, read_cached, serve_file, write,
}
use cess_dcdn_components.Base.FilePath.{base}
use cess_dcdn_components.Types.{CacheRequest, Status}
use cess_dcdn_components.Cacher.{CacheActor, State, Stream, file_reply, text_reply}
use cess_dcdn_components.Base.{Bytes, [], err, false, is_nil, none, ok, refl, ℕ, ◌++◌, ◌∷◌, ◌≡◌}

module _ {W : Type 0} (c : CacheActor W) where
  abbrev after_file : State W → W → Bytes → Stream
  after_file s w bytes = write (file_reply bytes) s.stream

  serve_file_read :
      (req : CacheRequest) (name : Bytes) (s : State W) {bytes : Bytes} {size : ℕ} {w : W}
      → read_cached c name s.world ≡ (ok (bytes, size), w)
      → serve_file c req name s
        ≡ charge c size
            (c.credit_mg.address_of req.account_id)
            (record s { world = w; stream = write (file_reply bytes) s.stream })
  unfolding serve_file
  serve_file_read req name s e = rw e refl

  -- A URL is served before the account's key is looked at: a cached page goes out on a sound stream for
  -- any key, with no check of the credit; when the key turns out not to be valid, an error follows the
  -- page, and nobody pays.
  pub handle_download_unpaid :
      (req : CacheRequest) (s : State W) {bytes x : Bytes} {size : ℕ} {w : W}
      → is_nil req.want_url ≡ false
      → read_cached c (c.get_sha256_hash (base req.want_url)) s.world ≡ (ok (bytes, size), w)
      → s.stream.broken ≡ none
      → c.credit_mg.address_of req.account_id ≡ err x
      → ((handle_download c req s).1.stream.sent
          ≡ s.stream.sent ++ (file_reply bytes ∷ text_reply Status.error x ∷ []))
        × ((handle_download c req s).1.world ≡ w)
  unfolding handle_download download_name
  handle_download_unpaid req s {bytes} {x} url read sound invalid =
      rw (url, serve_file_read req (c.get_sha256_hash (base req.want_url)) s read)
        (rw (invalid, sound) (append_assoc s.stream.sent _ _, refl))
