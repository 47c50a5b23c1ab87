-- ===== src/Tests.antt =====
-- Runs of the code and uses of the theorems at concrete inputs. The cryptographic functions of these
-- runs are toys: every hash and every derived key is all zeros, so every puzzle is solved and the
-- derived public exponent is 1.
mod Toy
mod Signing
mod Serving
mod Redeeming
mod Challenges
mod Scores
mod SafeKey
mod Keys
mod Running
mod Overlaps
mod DevKey
mod Sessions
