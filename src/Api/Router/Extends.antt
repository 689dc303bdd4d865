-- ===== src/Api/Router/Extends.antt =====
-- Files that have grown: bytes behind logs of partitions, and nothing else.
use codecrafters_kafka_cpp.Common.{
  ℕ, ◌≡◌, ◌≢◌, refl, sym, ap, ◌∙◌, [], ◌++◌, append_assoc, append-nil, true, false, Bool-cases, inl,
  inr, some, Bytes, bytes_eq, bytes_eq→eq, bytes_eq_refl,
}
use codecrafters_kafka_cpp.Storage.FileSystem.{FileSystem, content_of}
use codecrafters_kafka_cpp.Storage.LogFiles.{file_path}
use codecrafters_kafka_cpp.Metadata.Cache.{MetadataCache}
use codecrafters_kafka_cpp.Api.Controller.Produce.{Knows}

-- Every file has its bytes and some more behind them, and a file at a path that is no log of a
-- partition of the cache is as it was.
pub record Extends (fs : FileSystem) (cache : MetadataCache) (s s' : fs.State) : Type 0 where
  pub grown :
      (path : Bytes)
      → (added : Bytes) × (content_of (fs.read_file path s')
          ≡ content_of (fs.read_file path s) ++ added)
  pub others :
      (path : Bytes)
      → ((name : Bytes) (index : ℕ) → Knows cache name index → path ≢ file_path name index)
      → fs.read_file path s' ≡ fs.read_file path s

differs : (path path' : Bytes) → path ≡ path' → bytes_eq path path' ≢ false
differs path path' e h =
    let same : true ≡ false = sym (bytes_eq_refl path) ∙ ap (bytes_eq path) e ∙ h in cc

module _ {fs : FileSystem} (cache : MetadataCache) where
  pub Extends-of_eq : (s s' : fs.State) → s' ≡ s → Extends fs cache s s'
  Extends-of_eq s s' e = record {
    grown = λ path. ([], rw e (sym (append-nil _)));
    others = λ path h. rw e refl;
  }

  pub Extends-refl : (s : fs.State) → Extends fs cache s s
  Extends-refl s = Extends-of_eq s s refl

  pub Extends-trans :
      (s t u : fs.State) → Extends fs cache s t → Extends fs cache t u → Extends fs cache s u
  Extends-trans s t u h k = record {
    grown = λ path.
        let (first, e) = h.grown path in
        let (second, e') = k.grown path in
        (
          first ++ second,
          e'
              ∙ ap (λ (b : Bytes). b ++ second) e
              ∙ append_assoc (content_of (fs.read_file path s)) first second,
        );
    others = λ path unknown. k.others path unknown ∙ h.others path unknown;
  }

  -- Files that are read as before.
  pub made-Extends :
      (s t : fs.State)
      → ((file : Bytes) → fs.read_file file t ≡ fs.read_file file s)
      → Extends fs cache s t
  made-Extends s t same = record {
    grown = λ path. ([], rw (same path) (sym (append-nil _)));
    others = λ path unknown. same path;
  }

  -- Bytes behind the log of a partition of the cache.
  pub appended-Extends :
      (name : Bytes) (index : ℕ) (bytes : Bytes) (s t : fs.State)
      → Knows cache name index
      → fs.read_file (file_path name index) t
        ≡ some (some (content_of (fs.read_file (file_path name index) s) ++ bytes))
      → ((file : Bytes) → file ≢ file_path name index → fs.read_file file t ≡ fs.read_file file s)
      → Extends fs cache s t
  appended-Extends name index bytes s t known here elsewhere = record {
    grown = λ path. elim (Bool-cases (bytes_eq path (file_path name index))) [
      | inl there ↦
          let at_log : path ≡ file_path name index =
            bytes_eq→eq path (file_path name index) there in
          (bytes, rw (at_log, here) refl)
      | inr away ↦ (
        [],
        rw (elsewhere path (λ e. differs path (file_path name index) e away)) (sym (append-nil _)),
      )
    ];
    others = λ path unknown. elsewhere path (unknown name index known);
  }
