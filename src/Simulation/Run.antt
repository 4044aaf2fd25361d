-- ===== src/Simulation/Run.antt =====
-- `runOneConfig` and the loops of a worker over the rounds and configurations. The dictionaries that
-- are keyed by threads are functions; those that only hold what follows from `argsThreads` (the
-- command and the file names) are computed where they are read.
use brb_partially_connected.Base.{
  ℕ, List, [], ◌∷◌, Option, none, some, Bool, true, false, ◌&&◌, ◌==◌, Result, ok, raise, Exception,
  or_raise, key_error, value_error, file_not_found,
}
use brb_partially_connected.Nx.{GraphApi}
use brb_partially_connected.Simulation.Texts.{Text}
use brb_partially_connected.Simulation.Queue.{Params}

-- A call returns, raises an exception, or has not ended within the fuel.
pub data Run (A : Type 0) : Type 0 where
  done : A → Run A
  raised : Exception → Run A
  out_of_fuel : Run A

infixl 5 ◌>>=◌
abbrev pub ◌>>=◌ : {A B : Type 0} → Run A → (A → Run B) → Run B
done a >>= f = f a
raised e >>= f = raised e
out_of_fuel >>= f = out_of_fuel

abbrev pub lift : {A : Type 0} → Result A → Run A
lift (ok a) = done a
lift (raise e) = raised e

abbrev pub key : {A : Type 0} → Option A → Run A
key o = lift (or_raise key_error o)

-- One measure each: the lists of a simulation, or the tables of results.
pub record Four (A : Type 0) : Type 0 where
  pub msg : A
  pub bit : A
  pub lat : A
  pub proc : A

-- What the program uses of its surroundings: the floats and `statistics.mean`, the graphs that
-- networkx draws in each round, and the files in stats/ after the n-th simulation, for the topology,
-- the configuration file and the configuration that it is given. A line is nothing where `int` or
-- `float` raises ValueError.
pub record Surroundings : Type 1 where
  pub nx : GraphApi
  pub Float : Type 0
  pub mean : List Float → Float
  pub is_zero : Float → Bool
  pub draw : (round k N call : ℕ) → nx.Graph
  pub count_components : nx.Graph → ℕ
  pub node_connectivity : nx.Graph → ℕ
  pub delivers : (ned ini name : Text) (clock : ℕ) → Option (List (Option ℕ))
  pub measures : (ned ini name : Text) (clock : ℕ) → Four (Option (List (Option Float)))

-- `argsThreads[tid]`
pub record Args : Type 0 where
  pub n : ℕ
  pub f : ℕ
  pub k : ℕ
  pub config_id : ℕ

-- `msgsImprovement[n][f][k][configId]`, for all keys.
abbrev pub Table : Type 0 → Type 0
Table Float = Params → ℕ → Option (List Float)

abbrev pub max_config_id : ℕ
max_config_id = 12

abbrev pub repeats : ℕ
repeats = 5

abbrev pub msg_size : ℕ
msg_size = 8192

-- The lines of a file, read as numbers; a missing file raises FileNotFoundError.
abbrev pub numbers : {A : Type 0} → List (Option A) → Run (List A)
numbers [] = done []
numbers (none ∷ ls) = raised value_error
numbers (some x ∷ ls) = numbers ls >>= (λ xs. done (x ∷ xs))

abbrev pub read_numbers : {A : Type 0} → Option (List (Option A)) → Run (List A)
read_numbers file = lift (or_raise file_not_found file) >>= numbers

abbrev pub is_empty : {A : Type 0} → List A → Bool
is_empty [] = true
is_empty (x ∷ xs) = false

-- `xs[-1]`
abbrev pub last? : {A : Type 0} → List A → Option A
last? [] = none
last? (x ∷ []) = some x
last? (x ∷ y ∷ xs) = last? (y ∷ xs)

abbrev pub same_params : Params → Params → Bool
same_params (n, f, k) (n', f', k') = (n == n') && ((f == f') && (k == k'))

module _ (env : Surroundings) where
  open env use {nx, Float, mean, draw, count_components, node_connectivity}

  -- What the threads share.
  pub record Shared : Type 0 where
    pub args : ℕ → Option Args
    pub graphs : ℕ → Option nx.Graph
    pub lists : ℕ → Option (Four (List Float))
    pub results : Four (Table Float)
    -- The number of simulations so far.
    pub clock : ℕ
