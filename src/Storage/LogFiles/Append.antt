-- ===== src/Storage/LogFiles/Append.antt =====
-- The log files over a file system that works: what is appended is read back.
use codecrafters_kafka_cpp.Common.{
  ◌≡◌, ◌≢◌, refl, sym, ◌∙◌, ℕ, [], ◌∷◌, ◌++◌, append-nil, true, some, Bytes, ok,
}
use codecrafters_kafka_cpp.Storage.FileSystem.{FileSystem, content_of}
use codecrafters_kafka_cpp.Storage.LogFiles.{file_path, dir_path, read_log_file, append_to_log}

-- A file system without failures: directories can be made, which changes no file, and an append puts
-- its bytes behind those of its file and leaves every other file.
pub record IsReliable (fs : FileSystem) : Type 0 where
  pub made :
      (path : Bytes) (s : fs.State)
      → (s' : fs.State) × (fs.create_directories path s ≡ ok s')
        × ((file : Bytes) → fs.read_file file s' ≡ fs.read_file file s)
  pub appended :
      (path bytes : Bytes) (s : fs.State)
      → (s' : fs.State) × (fs.append_file path bytes s ≡ some (true, s'))
        × (fs.read_file path s' ≡ some (some (content_of (fs.read_file path s) ++ bytes)))
        × ((file : Bytes) → file ≢ path → fs.read_file file s' ≡ fs.read_file file s)

-- What a log holds, nothing if it is not there.
abbrev pub log_content : (fs : FileSystem) → Bytes → ℕ → fs.State → Bytes
log_content fs name index s = content_of (fs.read_file (file_path name index) s)

read_log_file_agrees :
    (fs : FileSystem) (name : Bytes) (index : ℕ) (s s' : fs.State)
    → fs.read_file (file_path name index) s' ≡ fs.read_file (file_path name index) s
    → read_log_file fs name index s' ≡ read_log_file fs name index s
unfolding read_log_file
read_log_file_agrees fs name index s s' e = rw (e, read_log_file)

-- Over a file system without failures, after an append of records to a log the log is what it was and
-- the records behind that, the append reports success, and every log at another path is as before.
pub append_to_log-read_log_file :
    (fs : FileSystem) (name : Bytes) (index : ℕ) (records : Bytes) (s : fs.State)
    → IsReliable fs
    → (s' : fs.State) × (append_to_log fs name index records s ≡ ok (true, s'))
      × (log_content fs name index s' ≡ log_content fs name index s ++ records)
      × ((name' : Bytes) (index' : ℕ)
          → file_path name' index' ≢ file_path name index
          → read_log_file fs name' index' s' ≡ read_log_file fs name' index' s)
unfolding append_to_log
append_to_log-read_log_file fs name index [] s r =
    (s, refl, sym (append-nil _), λ name' index' h. refl)
append_to_log-read_log_file fs name index (b ∷ bs) s r =
    let (s₁, made, same) = r.made (dir_path name index) s in
    let (s₂, written, here, elsewhere) = r.appended (file_path name index) (b ∷ bs) s₁ in
    (
      s₂,
      rw (made, written),
      rw (here, same (file_path name index)),
      λ name' index' h.
          read_log_file_agrees fs name' index' s s₂
            (elsewhere (file_path name' index') h ∙ same (file_path name' index')),
    )
