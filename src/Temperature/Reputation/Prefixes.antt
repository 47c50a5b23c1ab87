-- ===== src/Temperature/Reputation/Prefixes.antt =====
-- The GCP, DigitalOcean and Tor prefixes of internal/temperature/reputation.go.
use eu_trust_sdk.Base.{List, [], ◌∷◌, Text, codes}

unfoldable pub gcp : List Text
gcp =
    codes "8.34.208.0/20"
    ∷ codes "8.228.0.0/14"
    ∷ codes "8.232.0.0/14"
    ∷ codes "23.236.48.0/20"
    ∷ codes "23.251.128.0/20"
    ∷ codes "34.0.0.0/9"
    ∷ codes "34.128.0.0/10"
    ∷ codes "35.184.0.0/13"
    ∷ codes "35.192.0.0/11"
    ∷ codes "35.224.0.0/12"
    ∷ codes "35.240.0.0/13"
    ∷ codes "104.154.0.0/15"
    ∷ codes "104.196.0.0/14"
    ∷ codes "107.167.160.0/20"
    ∷ codes "107.178.208.0/20"
    ∷ codes "107.178.240.0/20"
    ∷ codes "130.211.0.0/16"
    ∷ codes "136.64.0.0/13"
    ∷ codes "136.108.0.0/14"
    ∷ codes "136.112.0.0/14"
    ∷ codes "146.148.0.0/16"
    ∷ codes "173.255.112.0/20"
    ∷ codes "207.175.0.0/16"
    ∷ []

unfoldable pub digital_ocean : List Text
digital_ocean =
    codes "45.55.0.0/16"
    ∷ codes "46.101.0.0/16"
    ∷ codes "64.23.128.0/17"
    ∷ codes "64.225.0.0/16"
    ∷ codes "64.226.64.0/18"
    ∷ codes "64.227.0.0/16"
    ∷ codes "67.205.128.0/18"
    ∷ codes "67.207.64.0/18"
    ∷ codes "68.183.0.0/16"
    ∷ codes "80.240.128.0/20"
    ∷ codes "82.196.0.0/20"
    ∷ codes "95.85.0.0/18"
    ∷ codes "104.131.0.0/16"
    ∷ codes "104.236.0.0/16"
    ∷ codes "104.248.0.0/16"
    ∷ codes "107.170.0.0/16"
    ∷ codes "128.199.0.0/16"
    ∷ codes "129.212.128.0/17"
    ∷ codes "134.122.0.0/17"
    ∷ codes "134.199.128.0/17"
    ∷ codes "134.209.0.0/16"
    ∷ codes "137.184.0.0/16"
    ∷ codes "138.68.0.0/16"
    ∷ codes "138.197.0.0/16"
    ∷ codes "139.59.0.0/16"
    ∷ codes "142.93.0.0/16"
    ∷ codes "143.110.128.0/17"
    ∷ codes "143.198.0.0/16"
    ∷ codes "143.244.128.0/17"
    ∷ codes "144.126.192.0/18"
    ∷ codes "146.185.128.0/18"
    ∷ codes "146.190.0.0/16"
    ∷ codes "147.182.128.0/17"
    ∷ codes "152.42.128.0/17"
    ∷ codes "157.230.0.0/16"
    ∷ codes "157.245.0.0/16"
    ∷ codes "159.65.0.0/16"
    ∷ codes "159.89.0.0/16"
    ∷ codes "159.203.0.0/16"
    ∷ codes "159.223.0.0/16"
    ∷ codes "161.35.0.0/16"
    ∷ codes "162.243.0.0/16"
    ∷ codes "164.90.128.0/17"
    ∷ codes "164.92.64.0/18"
    ∷ codes "165.22.0.0/16"
    ∷ codes "165.227.0.0/16"
    ∷ codes "165.232.32.0/19"
    ∷ codes "167.71.0.0/16"
    ∷ codes "167.99.0.0/16"
    ∷ codes "167.172.0.0/16"
    ∷ codes "168.144.0.0/16"
    ∷ codes "170.64.128.0/17"
    ∷ codes "174.138.0.0/17"
    ∷ codes "178.62.0.0/16"
    ∷ codes "178.128.0.0/16"
    ∷ codes "185.14.184.0/22"
    ∷ codes "188.166.0.0/16"
    ∷ codes "188.226.128.0/17"
    ∷ codes "192.34.56.0/21"
    ∷ codes "192.81.208.0/20"
    ∷ codes "192.241.128.0/17"
    ∷ codes "198.199.64.0/18"
    ∷ codes "198.211.96.0/19"
    ∷ codes "204.48.16.0/20"
    ∷ codes "206.81.0.0/20"
    ∷ codes "206.189.0.0/16"
    ∷ codes "207.154.192.0/18"
    ∷ codes "209.38.0.0/16"
    ∷ codes "209.97.128.0/18"
    ∷ []

unfoldable pub tor_cidrs : List Text
tor_cidrs =
    codes "185.220.100.0/22"
    ∷ codes "185.220.101.0/24"
    ∷ codes "185.220.102.0/24"
    ∷ codes "193.218.118.0/24"
    ∷ codes "199.249.230.0/24"
    ∷ codes "204.85.191.0/24"
    ∷ codes "209.141.32.0/19"
    ∷ codes "77.247.181.0/24"
    ∷ codes "109.70.100.0/24"
    ∷ codes "171.25.193.0/24"
    ∷ codes "198.96.155.0/24"
    ∷ codes "199.195.250.0/24"
    ∷ []
