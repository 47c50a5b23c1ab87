-- ===== src/Temperature/Reputation/Aws.antt =====
-- The AWS prefixes of internal/temperature/reputation.go.
use eu_trust_sdk.Base.{List, [], ◌∷◌, Text, codes}

unfoldable pub aws : List Text
aws =
    codes "3.0.0.0/15"
    ∷ codes "3.2.0.0/16"
    ∷ codes "3.4.0.0/16"
    ∷ codes "3.5.0.0/19"
    ∷ codes "3.32.0.0/12"
    ∷ codes "3.48.0.0/12"
    ∷ codes "3.64.0.0/12"
    ∷ codes "3.80.0.0/12"
    ∷ codes "3.96.0.0/12"
    ∷ codes "3.112.0.0/12"
    ∷ codes "3.128.0.0/12"
    ∷ codes "13.32.0.0/14"
    ∷ codes "13.48.0.0/14"
    ∷ codes "13.52.0.0/14"
    ∷ codes "13.56.0.0/14"
    ∷ codes "13.208.0.0/16"
    ∷ codes "13.210.0.0/15"
    ∷ codes "13.212.0.0/14"
    ∷ codes "13.228.0.0/14"
    ∷ codes "13.232.0.0/14"
    ∷ codes "13.236.0.0/14"
    ∷ codes "13.244.0.0/14"
    ∷ codes "13.248.0.0/14"
    ∷ codes "15.152.0.0/14"
    ∷ codes "15.160.0.0/14"
    ∷ codes "15.164.0.0/14"
    ∷ codes "15.168.0.0/14"
    ∷ codes "15.177.0.0/16"
    ∷ codes "15.188.0.0/14"
    ∷ codes "15.192.0.0/14"
    ∷ codes "15.196.0.0/14"
    ∷ codes "15.200.0.0/14"
    ∷ codes "15.220.0.0/14"
    ∷ codes "15.228.0.0/14"
    ∷ codes "16.0.0.0/14"
    ∷ codes "16.16.0.0/14"
    ∷ codes "16.24.0.0/14"
    ∷ codes "18.96.0.0/14"
    ∷ codes "18.100.0.0/14"
    ∷ codes "18.116.0.0/14"
    ∷ codes "18.128.0.0/14"
    ∷ codes "18.132.0.0/14"
    ∷ codes "18.136.0.0/14"
    ∷ codes "18.140.0.0/14"
    ∷ codes "18.144.0.0/14"
    ∷ codes "18.156.0.0/14"
    ∷ codes "18.160.0.0/14"
    ∷ codes "18.168.0.0/14"
    ∷ codes "18.172.0.0/14"
    ∷ codes "18.176.0.0/14"
    ∷ codes "18.180.0.0/14"
    ∷ codes "18.184.0.0/14"
    ∷ codes "18.188.0.0/14"
    ∷ codes "18.192.0.0/14"
    ∷ codes "18.196.0.0/14"
    ∷ codes "18.200.0.0/14"
    ∷ codes "18.204.0.0/14"
    ∷ codes "18.208.0.0/14"
    ∷ codes "18.212.0.0/14"
    ∷ codes "18.216.0.0/14"
    ∷ codes "18.220.0.0/14"
    ∷ codes "18.224.0.0/14"
    ∷ codes "18.228.0.0/14"
    ∷ codes "18.232.0.0/14"
    ∷ codes "18.236.0.0/14"
    ∷ codes "18.240.0.0/14"
    ∷ codes "18.244.0.0/14"
    ∷ codes "18.248.0.0/14"
    ∷ codes "18.252.0.0/14"
    ∷ codes "44.192.0.0/14"
    ∷ codes "44.196.0.0/14"
    ∷ codes "44.200.0.0/14"
    ∷ codes "44.204.0.0/14"
    ∷ codes "44.208.0.0/14"
    ∷ codes "44.212.0.0/14"
    ∷ codes "44.216.0.0/14"
    ∷ codes "44.220.0.0/14"
    ∷ codes "44.224.0.0/14"
    ∷ codes "44.228.0.0/14"
    ∷ codes "44.232.0.0/14"
    ∷ codes "44.236.0.0/14"
    ∷ codes "44.240.0.0/14"
    ∷ codes "46.51.128.0/17"
    ∷ codes "52.0.0.0/14"
    ∷ codes "52.4.0.0/14"
    ∷ codes "52.8.0.0/14"
    ∷ codes "52.12.0.0/14"
    ∷ codes "52.16.0.0/14"
    ∷ codes "52.20.0.0/14"
    ∷ codes "52.24.0.0/14"
    ∷ codes "52.28.0.0/14"
    ∷ codes "52.32.0.0/14"
    ∷ codes "52.36.0.0/14"
    ∷ codes "52.40.0.0/14"
    ∷ codes "52.44.0.0/14"
    ∷ codes "52.48.0.0/14"
    ∷ codes "52.52.0.0/14"
    ∷ codes "52.56.0.0/14"
    ∷ codes "52.60.0.0/14"
    ∷ codes "52.64.0.0/14"
    ∷ codes "54.64.0.0/14"
    ∷ codes "54.68.0.0/14"
    ∷ codes "54.72.0.0/14"
    ∷ codes "54.76.0.0/14"
    ∷ codes "54.80.0.0/14"
    ∷ codes "54.84.0.0/14"
    ∷ codes "54.88.0.0/14"
    ∷ codes "54.92.0.0/14"
    ∷ codes "54.144.0.0/14"
    ∷ codes "54.148.0.0/14"
    ∷ codes "54.152.0.0/14"
    ∷ codes "54.156.0.0/14"
    ∷ codes "54.160.0.0/14"
    ∷ codes "54.164.0.0/14"
    ∷ codes "54.168.0.0/14"
    ∷ codes "54.172.0.0/14"
    ∷ codes "54.176.0.0/14"
    ∷ codes "54.180.0.0/14"
    ∷ codes "54.184.0.0/14"
    ∷ codes "54.188.0.0/14"
    ∷ codes "54.192.0.0/14"
    ∷ codes "54.196.0.0/14"
    ∷ codes "54.200.0.0/14"
    ∷ codes "54.204.0.0/14"
    ∷ codes "54.208.0.0/14"
    ∷ codes "54.212.0.0/14"
    ∷ codes "54.216.0.0/14"
    ∷ codes "54.220.0.0/14"
    ∷ codes "54.224.0.0/14"
    ∷ codes "54.228.0.0/14"
    ∷ codes "54.232.0.0/14"
    ∷ codes "54.236.0.0/14"
    ∷ codes "54.240.0.0/14"
    ∷ codes "54.244.0.0/14"
    ∷ codes "54.248.0.0/14"
    ∷ codes "54.252.0.0/14"
    ∷ codes "99.77.128.0/18"
    ∷ codes "99.150.0.0/17"
    ∷ []
