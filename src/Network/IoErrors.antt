-- ===== src/Network/IoErrors.antt =====
-- src/network_protocol/grpc.rs: the search for an I/O error behind a `Status`.
use mini_realtime_server_rs.Prelude.{◌≡◌, Bool, Option, none, some, List, [], ◌∷◌, arith}

-- What is used of `std::error::Error`, h2 and tonic. `downcast_io` and `downcast_h2` are the two
-- instances of `downcast_ref`. `sources` are the error itself, as a `dyn Error`, and those that
-- `source` yields from there on; they are finitely many, since an error owns its source.
pub record Errors : Type 1 where
  pub Status : Type 0
  pub Error : Type 0
  pub IoError : Type 0
  pub H2Error : Type 0
  pub sources : Status → Error × List Error
  pub downcast_io : Error → Option IoError
  pub downcast_h2 : Error → Option H2Error
  pub get_io : H2Error → Option IoError
  pub is_broken_pipe : IoError → Bool

module _ ⦃errors : Errors⦄ where
  -- The loop, at `err` with the sources behind it.
  unfoldable pub find_io_error : errors.Error → List errors.Error → Option errors.IoError
  find_io_error err [] = elim (errors.downcast_io err) [
    | some io_err ↦ some io_err
    | none ↦ elim (errors.downcast_h2 err) [ some h2_err ↦ errors.get_io h2_err | none ↦ none ]
  ]
  find_io_error err (source ∷ rest) = elim (errors.downcast_io err) [
    | some io_err ↦ some io_err
    | none ↦ elim (errors.downcast_h2 err) [
      | some h2_err ↦ elim (errors.get_io h2_err) [
        | some io_err ↦ some io_err
        | none ↦ find_io_error source rest
      ]
      | none ↦ find_io_error source rest
    ]
  ]

  unfoldable pub match_for_io_error : errors.Status → Option errors.IoError
  unfolding find_io_error
  match_for_io_error status = find_io_error (errors.sources status).0 (errors.sources status).1

  -- The I/O error that one error is or holds.
  abbrev pub io_of : errors.Error → Option errors.IoError
  io_of err = elim (errors.downcast_io err) [
    | some io_err ↦ some io_err
    | none ↦ elim (errors.downcast_h2 err) [ some h2_err ↦ errors.get_io h2_err | none ↦ none ]
  ]

  -- The first that a list yields.
  unfoldable pub first_of : List errors.Error → Option errors.IoError
  first_of [] = none
  first_of (err ∷ rest) = elim (io_of err) [ some io_err ↦ some io_err | none ↦ first_of rest ]

  find_io_error_lem :
      (err : errors.Error) (rest : List errors.Error)
      → find_io_error err rest ≡ first_of (err ∷ rest)
  unfolding find_io_error first_of
  find_io_error_lem err [] = ground arith
  find_io_error_lem err (source ∷ rest) = ground (arith, find_io_error_lem source rest)

  -- The search returns the first I/O error among the status and the sources behind it, where an
  -- `h2::Error` counts for the one it holds; it stops at no error that has none.
  pub match_for_io_error_lem :
      (status : errors.Status)
      → match_for_io_error status ≡ first_of ((errors.sources status).0 ∷ (errors.sources status).1)
  unfolding match_for_io_error
  match_for_io_error_lem status =
      find_io_error_lem (errors.sources status).0 (errors.sources status).1
