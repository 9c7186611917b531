-- ===== src/Transfer/Answers.antt =====
-- What a client makes of the answer to a download.
use cess_dcdn_components.Transfer.Writes.{write_data_multiple, write_data_short}
use cess_dcdn_components.Transfer.Streams.{buffer_size, write_data}
use cess_dcdn_components.Transfer.Requests.{
  Codec, Disk, Host, download_file_from_cache, eof, send_request_to_cacher,
}
use cess_dcdn_components.Base.{
  Outcome, Bytes, [], ap, arith, bind_ok, codes, err, fail_if, false, is_nil, length, ok, refl, suc,
  wrapped, wrapping, ℕ, ◌*◌, ◌++◌, ◌+◌, ◌<◌, ◌>>◌, ◌∙◌, ◌∷◌, ◌≡◌,
}
use cess_dcdn_components.Types.{CacheRequest, download}

not_nil : (b : Bytes) → 0 < length b → is_nil b ≡ false
not_nil [] h = absurd (omega arith)
not_nil (x ∷ b) h = refl

module _ {W : Type 0} (h : Host W) (codec : Codec) where
  module _ (disk : Disk W) (content : Bytes → W → Bytes)
      (works : (p b : Bytes) (w : W) → (disk.append_to p b w).0 ≡ ok tt)
      (appends : (p b : Bytes) (w : W) → content p (disk.append_to p b w).1 ≡ content p w ++ b)
      (peer path : Bytes) (req : CacheRequest) (w : W) {w1 w2 : W} {body : Bytes}
      (sent : send_request_to_cacher h codec peer (record req { option = download }) w
        ≡ (ok body, w1))
      (created : disk.create path w1 ≡ (ok tt, w2)) (fresh : content path w2 ≡ []) where
    -- A written file, once the error has its message.
    wrapped_file :
        (r : Outcome (Unit {0}) × W) (o : Outcome (Unit {0}))
        → (r.0 ≡ o) × (content path r.1 ≡ content path w2 ++ body)
        → ((wrapped "download file error" r).0 ≡ (wrapped "download file error" (o, r.1)).0)
          × (content path (wrapped "download file error" r).1 ≡ body)
    wrapped_file r o h = (rw h.0 refl, h.1 ∙ rw fresh refl)

    download_file_from_cache_steps :
        0 < length body
        → download_file_from_cache h codec disk peer path req w
          ≡ wrapping "download file error" (write_data (disk.append_to path) eof (body ∷ [])) w2
    unfolding download_file_from_cache
    download_file_from_cache_steps some_bytes = ap (wrapped "download file error") (
        bind_ok (send_request_to_cacher h codec peer (record req { option = download }))
          (λ body. do
            fail_if (is_nil body) (codes "empty response")
            disk.create path
            write_data (disk.append_to path) eof (body ∷ []))
          sent
        ∙ bind_ok (fail_if (is_nil body) (codes "empty response"))
            (λ _. disk.create path >> write_data (disk.append_to path) eof (body ∷ []))
            (rw (not_nil body some_bytes) refl)
        ∙ bind_ok (disk.create path) (λ _. write_data (disk.append_to path) eof (body ∷ []))
            created)

    -- A body whose length is no multiple of 1024 is stored as the file, and the download succeeds, when the
    -- file can be written: an error that the node sends as JSON text is taken for the file as well.
    pub download_file_from_cache_short :
        (k r : ℕ)
        → length body ≡ k * buffer_size + r
        → 0 < r
        → r < buffer_size
        → ((download_file_from_cache h codec disk peer path req w).0 ≡ ok tt)
          × (content path (download_file_from_cache h codec disk peer path req w).1 ≡ body)
    download_file_from_cache_short k r e p s =
        let written =
          write_data_short (disk.append_to path) (content path) (works path) (appends path) eof body
            k r w2 e p s in
        let steps = download_file_from_cache_steps (omega arith) in
        let file =
          wrapped_file (write_data (disk.append_to path) eof (body ∷ []) w2) (ok tt) written in
        (ap (λ r. r.0) steps ∙ file.0, ap (λ r. content path r.1) steps ∙ file.1)

    -- A body whose length is a positive multiple of 1024, as that of every whole fragment is, is stored
    -- whole, but the download fails, when the file can be written.
    pub download_file_from_cache_multiple :
        (k : ℕ)
        → length body ≡ suc k * buffer_size
        → ((download_file_from_cache h codec disk peer path req w).0
            ≡ err (codes "download file error: EOF"))
          × (content path (download_file_from_cache h codec disk peer path req w).1 ≡ body)
    download_file_from_cache_multiple k e =
        let written =
          write_data_multiple (disk.append_to path) (content path) (works path) (appends path) eof
            body k w2 e in
        let steps = download_file_from_cache_steps (omega arith) in
        let file =
          wrapped_file (write_data (disk.append_to path) eof (body ∷ []) w2) (err eof) written in
        (ap (λ r. r.0) steps ∙ file.0, ap (λ r. content path r.1) steps ∙ file.1)
