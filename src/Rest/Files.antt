-- ===== src/Rest/Files.antt =====
-- server/rest/handlers: files.go and system.go, with services/system/service.go. The names of files are
-- joined to their directory outside.
use boilerplate_go_be.Base.{
  ◌≡◌, ◌⊎◌, inl, inr, refl, arith, Bool-cases, ℕ, ℤ, String, str_append, show_int, Bool, true,
  false, str_eq, is_positive, seconds, if◌then◌else◌,
}
use boilerplate_go_be.Code.{err_payload_error, err_not_found, err_internal_server_error}
use boilerplate_go_be.Runtime.{
  ret, Result-cases, Error, code_error, Result, ok, err, Prog, pure, raise, modify, ◌>>=◌, ◌>>◌,
}
use boilerplate_go_be.Platform.{Platform}
use boilerplate_go_be.World.{World, call}
use boilerplate_go_be.Rest.{Envelope, success_envelope}

-- Files and the process: `os.ReadFile`, whether an error is `os.ErrNotExist`, `fmt`'s `%q`, the type of an
-- extension and that of the data, a reader that is drained, `time.Sleep` and `os.Getpid`.
pub record Files (P : Platform) : Type 1 where
  pub Data : Type 0
  pub read_data : String → P.State → Result Data × P.State
  pub not_exist : Error → Bool
  pub quoted : String → String
  pub type_by_extension : String → String
  pub detect_content_type : Data → String
  pub drain : P.State → P.State
  pub sleep_for : ℤ → P.State → P.State
  pub getpid : ℤ

pub record MessageOutput : Type 0 where
  pub status : ℕ
  pub body : Envelope String

module _ {P : Platform} (F : Files P) (app_name : String) where
  pub record DownloadOutput : Type 0 where
    pub status : ℕ
    pub content_disposition : String
    pub content_type : String
    pub data_ : F.Data

  pub message_output : String → MessageOutput
  message_output msg = record { status = 200; body = success_envelope app_name 200 msg }

  -- Whether the form has a file, and the message of the answer.
  unfoldable pub accept_file : Bool → String → Prog (World P) (Result MessageOutput)
  unfolding message_output
  accept_file false msg = pure (err (code_error err_payload_error))
  accept_file true msg = do
    modify (λ w. record w { outside = F.drain w.outside })
    pure (ok (message_output msg))

  unfoldable pub upload_file : Bool → Prog (World P) (Result MessageOutput)
  unfolding accept_file message_output
  upload_file has_file = accept_file has_file "uploaded"

  -- With the name of the form.
  unfoldable pub form_with_file : Bool → String → Prog (World P) (Result MessageOutput)
  unfolding accept_file message_output
  form_with_file has_file name = accept_file has_file name

  pub download_output : String → F.Data → DownloadOutput
  download_output name data_ = record {
    status = 200;
    content_disposition = str_append "attachment; filename=" (F.quoted name);
    content_type =
        if str_eq (F.type_by_extension name) ""
        then F.detect_content_type data_
        else F.type_by_extension name;
    data_ = data_;
  }

  unfoldable pub download_file : String → Prog (World P) (Result DownloadOutput)
  unfolding download_output
  download_file name = do
    got ← call P (F.read_data (P.path_join "public" name))
    elim got [
      | ok data_ ↦ pure (ok (download_output name data_))
      | err e ↦
          pure
            (err (code_error (if F.not_exist e then err_not_found else err_internal_server_error)))
    ]

  -- services/system.
  unfoldable pub system_echo : Prog (World P) String
  system_echo = pure "echo"

  unfoldable pub system_crash : Prog (World P) (Unit {0})
  system_crash = raise "intentional crash"

  -- For a number of seconds; what it answers is the process id.
  unfoldable pub system_long : ℤ → Prog (World P) String
  system_long sleep_seconds = do
    (if is_positive sleep_seconds
        then modify (λ w. record w { outside = F.sleep_for (seconds sleep_seconds) w.outside })
        else pure tt)
    pure (show_int F.getpid)

  unfoldable pub echo : Prog (World P) (Result MessageOutput)
  unfolding message_output system_echo
  echo = do resp ← system_echo; pure (ok (message_output resp))

  -- The body of what it would answer is null, which a message stands for.
  unfoldable pub crash : Prog (World P) (Result MessageOutput)
  unfolding message_output system_crash
  crash = do system_crash; pure (ok (message_output ""))

  unfoldable pub long : ℤ → Prog (World P) (Result MessageOutput)
  unfolding message_output system_long
  long sleep_seconds = do pid ← system_long sleep_seconds; pure (ok (message_output pid))

  -- A download either answers 200 or fails with one of two codes: the handler neither panics nor shows
  -- the error of the file system.
  pub download_file-answers :
      (name : String) (w : World P)
      → ((out : DownloadOutput) × ((download_file name w).0 ≡ ret (ok out)) × (out.status ≡ 200))
        ⊎ (((download_file name w).0 ≡ ret (err (code_error err_not_found)))
            ⊎ ((download_file name w).0 ≡ ret (err (code_error err_internal_server_error))))
  unfolding download_file download_output
  download_file-answers name w =
      elim (Result-cases (F.read_data (P.path_join "public" name) w.outside).0) [
        | inl (data_, e) ↦ inl (download_output name data_, ground arith, refl)
        | inr (e, h) ↦ elim (Bool-cases (F.not_exist e)) [
          | inl missing ↦ inr (inl (ground arith))
          | inr other ↦ inr (inr (ground arith))
        ]
      ]
